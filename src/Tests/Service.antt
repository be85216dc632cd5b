-- ===== src/Tests/Service.antt =====
-- The theorems on auth/src/lib.rs at concrete inputs, over the store of server/src/repository.rs.
use rs_console.Common.{◌+◌, ◌≡◌, refl, true, some, List, arith, bytes, ok}
use rs_console.Policy.Canonical.{null, object, end}
use rs_console.Auth.Types.{
  Uuid, StoredCredential, AuthenticationVerification, CeremonyKind, Ceremony, SessionGrant,
  default_config,
}
use rs_console.Auth.Tokens.{Cryptography, hash}
use rs_console.Auth.Service.Accounts.{valid_contact}
use rs_console.Server.Names.{parse_ceremony_kind}
use rs_console.Server.Rows.{credential_of_row, ceremony_of_row}
use rs_console.Server.Tables.{Tables}
use rs_console.Server.Queries.{
  insert_by, order_by, user_by_id, user_by_handle, credentials_for_user, find_ceremony,
}
use rs_console.Auth.Interfaces.{CeremonyEngine, AuthStore}
use rs_console.Auth.Service.Guards.{finish_authentication-ok}
use rs_console.Auth.Service.Login.{
  new_session, finish_authentication, check_csrf, authenticate_session,
}
use rs_console.Server.Store.{pg_auth_store}
use rs_console.Auth.Trim.{space_width, space_width_back, trim_from, reverse_onto, trim}
use rs_console.Server.Http.{HeaderMap}
use rs_console.Tests.Database.{
  store_run, healthy, print_uuid, hash_a, hash_b, tables, verified, new_passkey, ann,
}
use rs_console.Server.Logins.{finish_authentication-authenticate_session}
use rs_console.Tests.Histories.{tables-IsConsistent}

abbrev pub plain_text : Cryptography
plain_text = record { decode = λ s. some s; encode = λ s. s; sha256 = λ s. s }

-- An engine that accepts every response, from the user with handle 2.
abbrev pub engine : CeremonyEngine
engine = record {
  start_registration = λ u cs. ok (null, null);
  finish_registration = λ response state. ok new_passkey;
  start_authentication = ok (null, null);
  authentication_user_handle = λ response. ok 2;
  finish_authentication = λ response state cs. ok verified;
}

abbrev pub store : AuthStore Tables
store = pg_auth_store healthy print_uuid 70

abbrev ann_grant : SessionGrant
ann_grant = record {
  token = hash_b;
  csrf = hash_a;
  session = new_session plain_text default_config 32 hash_b hash_a ann 10;
}

unfoldable pub service_run : Unit {0}
unfolding store_run finish_authentication authenticate_session check_csrf hash user_by_handle
    user_by_id credentials_for_user find_ceremony credential_of_row ceremony_of_row
    parse_ceremony_kind order_by insert_by valid_contact trim trim_from reverse_onto space_width
    space_width_back
service_run = tt

finish_authentication-ok_example :
    (ceremony : Ceremony) × (handle : Uuid) × (credentials : List StoredCredential)
    × (v : AuthenticationVerification) × (store.ceremony tables 11 CeremonyKind.authentication 10
        ≡ ok (some ceremony))
    × (engine.authentication_user_handle null ≡ ok handle)
    × (store.user_by_handle tables handle ≡ ok (some ann))
    × (ann.enabled ≡ true)
    × (store.credentials_for_user tables ann.id ≡ ok credentials)
    × (engine.finish_authentication null ceremony.state credentials ≡ ok v)
    × (ann_grant.session ≡ record {
      id = 32;
      user_id = bytes "ann";
      token_hash = hash_b;
      csrf_hash = hash_a;
      auth_epoch = 3;
      idle_expires_at = 10 + default_config.session_idle_ttl;
      absolute_expires_at = 10 + default_config.session_absolute_ttl;
    })
    × ((store.complete_authentication 11 v ann_grant.session 10
          (record {
            event_type = bytes "session.created";
            actor_user_id = some ann.id;
            subject_user_id = some ann.id;
            data_value = object end;
          })
          tables).1
        ≡ ok tt)
    × ((finish_authentication plain_text store engine default_config 32 hash_b hash_a 11 null 10
          tables).0
        ≡ (store.complete_authentication 11 v ann_grant.session 10
            (record {
              event_type = bytes "session.created";
              actor_user_id = some ann.id;
              subject_user_id = some ann.id;
              data_value = object end;
            })
            tables).0)
    × (hash_b ≡ hash_b)
    × (hash_a ≡ hash_a)
unfolding service_run
finish_authentication-ok_example =
    finish_authentication-ok plain_text store engine default_config 32 hash_b hash_a 11 null 10
      tables ann_grant ann refl

-- A request of the operator.
abbrev pub request : HeaderMap
request = record {
  origin = some (bytes "https://console.example");
  content_type = some (bytes "application/json");
  cookie = some (bytes "theme=dark; __Host-rs_session=fedcba9876543210fedcba9876543210");
  csrf = some hash_b;
}

-- The session of a login is used two microseconds later.
finish_authentication-authenticate_session_example :
    (authenticate_session plain_text
      (pg_auth_store healthy print_uuid 71)
      engine
      default_config
      hash_b
      (some hash_a)
      12
      (finish_authentication plain_text store engine default_config 32 hash_b hash_a 11 null 10
        tables).0).1
    ≡ ok (record {
      session_id = 32;
      user = ann;
      csrf_hash = hash_a;
      absolute_expires_at = 10 + default_config.session_absolute_ttl;
    })
unfolding service_run
finish_authentication-authenticate_session_example =
    finish_authentication-authenticate_session plain_text healthy healthy print_uuid 70 71 engine
      default_config 32 hash_b hash_a 11 null 10 12 tables ann_grant ann tables-IsConsistent
      ((λ line. refl), (λ line. refl)) refl (omega arith) (omega arith)

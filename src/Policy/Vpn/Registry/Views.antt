-- ===== src/Policy/Vpn/Registry/Views.antt =====
-- A `VpnPolicy` of policy/src/vpn.rs seen as a registry.
use rs_console.Common.{
  ℕ, ◌+◌, ◌≤◌, ◌<◌, ◌≡◌, refl, sym, subst, inl, inr, some, [], ◌∷◌, arith, ltb, ◌==◌, nat_eq,
  text_eq, bool_eq, Bool-cases, any, ok,
}
use rs_console.Common.Map.{Map, get, insert, values, get-insert}
use rs_console.Policy.Vpn.History.{Change, Verdict, verdict, step, done, failed, stopped}
use rs_console.Policy.Vpn.Registry.{Registry, Sets, Step, Refused}
use rs_console.Policy.Manifest.{VpnPeer, address_eq, contains}
use rs_console.Policy.Vpn.{
  Outcome, u64_max, next, VpnPolicy, advance, used_hosts, has_key, returned, panicked,
}
use rs_console.Policy.Ids.{PeerId, WireGuardPublicKey}
use rs_console.Policy.Address.{host}

-- The registry that a policy stands for.
abbrev pub view : VpnPolicy → Registry
view policy = record { generation = policy.generation; peer = λ id. get id policy.peers }

-- What a call does, by its verdict.
abbrev pub Simulates : VpnPolicy → Change → VpnPolicy × Verdict → Type 0
Simulates policy change (policy', done) = Step (view policy) change (view policy')
Simulates policy change (policy', failed) = Refused (view policy) change × (policy' ≡ policy)
Simulates policy change (policy', stopped) = u64_max ≤ policy.generation

-- The two ways in which a change that is made ends.
pub advance-Simulates :
    {A : Type 0} (policy policy' : VpnPolicy) (change : Change) (result : A)
    → policy'.generation ≡ policy.generation
    → (policy.generation < u64_max
        → Step (view policy) change (view (record policy' { generation = policy'.generation + 1 })))
    → Simulates policy change ((advance policy' result).0, verdict (advance policy' result).1)
unfolding advance next
advance-Simulates {A} policy policy' change result same made =
    let Goal : VpnPolicy × Outcome A → Type 0 = λ x. Simulates policy change (x.0, verdict x.1) in
    elim (Bool-cases (ltb policy'.generation u64_max)) [
      | inl more ↦
          let next_policy : VpnPolicy = record policy' { generation = policy'.generation + 1 } in
          let e : advance policy' result ≡ (next_policy, returned (ok result)) = ground arith in
          subst Goal (sym e) (made (ground arith))
      | inr last ↦
          let e : advance policy' result ≡ (policy', panicked) = ground arith in
          subst Goal (sym e) (ground arith)
    ]

pub has_key-any :
    (key : WireGuardPublicKey) (m : Map VpnPeer)
    → has_key key (values m) ≡ any (λ e. e.1.public_key == key) m
unfolding has_key
has_key-any key [] = refl
has_key-any key ((j, w) ∷ m) = ground (arith, has_key-any key m)

pub contains-any :
    (h : ℕ) (m : Map VpnPeer)
    → contains h (used_hosts (values m)) ≡ any (λ e. host e.1.address == h) m
contains-any h [] = refl
contains-any h ((j, w) ∷ m) = ground (arith, contains-any h m)

pub insert-Sets :
    (policy : VpnPolicy) (id : PeerId) (peer : VpnPeer)
    → Sets (view policy) id (some peer) (
        view (record policy {
          generation = policy.generation + 1;
          peers = insert id peer policy.peers;
        }))
insert-Sets policy id peer = (refl, λ j. get-insert id j peer policy.peers)

pub simulated :
    (policy : VpnPolicy) (change : Change) (x : VpnPolicy × Verdict)
    → step policy change ≡ x
    → Simulates policy change x
    → Simulates policy change (step policy change)
simulated policy change x e h = subst (Simulates policy change) (sym e) h

-- The end of a method that changes something.
abbrev pub ended : {A : Type 0} → VpnPolicy × Outcome A → VpnPolicy × Verdict
ended (policy, r) = (policy, verdict r)

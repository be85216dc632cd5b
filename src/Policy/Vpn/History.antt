-- ===== src/Policy/Vpn/History.antt =====
-- Histories of the methods of `VpnPolicy`, from the default policy on.
use rs_console.Common.{◌+◌, ◌≤◌, ◌≡◌, ◌⊎◌, Bool, List, [], ◌∷◌, arith, ok, err}
use rs_console.Policy.Ids.{UserId, PeerId, WireGuardPublicKey}
use rs_console.Policy.Vpn.{
  Outcome, u64_max, VpnPolicy, default, enroll, set_games, rotate_key, revoke, returned, panicked,
}
use rs_console.Policy.Vpn.Invariant.{
  IsValid, default-IsValid, enroll-IsValid, set_games-IsValid, rotate_key-IsValid, revoke-IsValid,
}

-- A call of a method that changes the policy.
pub data Change : Type 0 where
  enrolls : UserId → PeerId → WireGuardPublicKey → Bool → Change
  sets_games : PeerId → Bool → Change
  rotates_key : PeerId → WireGuardPublicKey → Change
  revokes : PeerId → Change

-- The policy behind a call, and whether the call returned an error or panicked.
pub data Verdict : Type 0 where
  done failed stopped : Verdict

abbrev pub verdict {ℓ} : {A : Type ℓ} → Outcome A → Verdict
verdict (returned (ok a)) = done
verdict (returned (err e)) = failed
verdict panicked = stopped

unfoldable pub step : VpnPolicy → Change → VpnPolicy × Verdict
step p (enrolls user_id peer_id key with_games) =
    let (p', r) = enroll p user_id peer_id key with_games in (p', verdict r)
step p (sets_games peer_id enabled) = let (p', r) = set_games p peer_id enabled in (p', verdict r)
step p (rotates_key peer_id key) = let (p', r) = rotate_key p peer_id key in (p', verdict r)
step p (revokes peer_id) = let (p', r) = revoke p peer_id in (p', verdict r)

unfoldable pub run : VpnPolicy → List Change → VpnPolicy
unfolding step
run p [] = p
run p (c ∷ cs) = run (step p c).0 cs

step-IsValid : (p : VpnPolicy) (c : Change) → IsValid p → IsValid (step p c).0
unfolding step
step-IsValid p (enrolls user_id peer_id key with_games) v =
    enroll-IsValid p user_id peer_id key with_games v
step-IsValid p (sets_games peer_id enabled) v = set_games-IsValid p peer_id enabled v
step-IsValid p (rotates_key peer_id key) v = rotate_key-IsValid p peer_id key v
step-IsValid p (revokes peer_id) v = revoke-IsValid p peer_id v

run_from-IsValid : (p : VpnPolicy) (cs : List Change) → IsValid p → IsValid (run p cs)
unfolding run
run_from-IsValid p [] v = v
run_from-IsValid p (c ∷ cs) v = run_from-IsValid (step p c).0 cs (step-IsValid p c v)

-- After any sequence of calls on a default policy the peers are in the order of their ids and each
-- stands under its own id, no two peers share a public key or a host, every address is one of the
-- usable addresses of the pool, and the generation is positive and fits 64 bits.
pub run-IsValid : (cs : List Change) → IsValid (run default cs)
run-IsValid cs = run_from-IsValid default cs default-IsValid

-- What a call does to the generation and the peers, by its verdict.
abbrev pub Advances : VpnPolicy → VpnPolicy → Verdict → Type 0
Advances p q failed = q ≡ p
Advances p q done = (q ≡ p) ⊎ (q.generation ≡ p.generation + 1)
Advances p q stopped = (q.generation ≡ p.generation) × (u64_max ≤ p.generation)

-- A call that returns an error leaves the policy exactly as it was; one that succeeds either leaves
-- it exactly as it was or advances the generation by one; one that panics keeps the generation, and
-- panics only at the end of the generations.
pub step-Advances : (p : VpnPolicy) (c : Change) → Advances p (step p c).0 (step p c).1
unfolding step enroll set_games rotate_key revoke
step-Advances p (enrolls user_id peer_id key with_games) = ground arith
step-Advances p (sets_games peer_id enabled) = ground arith
step-Advances p (rotates_key peer_id key) = ground arith
step-Advances p (revokes peer_id) = ground arith

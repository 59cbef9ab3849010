-- ===== src/Policy/Plan/Accounting.antt =====
-- How many messages a plan acts on, and that it accounts for each of them.
use queuelens.Prelude.{
  ℕ, suc, ◌+◌, ◌≤◌, ◌<◌, ◌≡◌, refl, subst, String, List, [], ◌∷◌, ◌++◌, Dict, get, put, length,
  length-append, arith,
}
use queuelens.Failure.{ok, Result-cases, returned, raised}
use queuelens.Domain.{MessageRecord, ReplayTarget, target_eq}
use queuelens.Policy.Plan.{
  Plan, Rules, Progress, Verdict, without_history, waits, without_target, exhausted, due, classify,
  fingerprints_at, add_replay, settle, sort_from, plan, empty,
}

-- How many messages a plan replays.
abbrev pub replays : Dict ReplayTarget (List String) → ℕ
replays [] = 0
replays ((t, fps) ∷ d) = length fps + replays d

abbrev pub acted_on : Plan → ℕ
acted_on out = length out.park + replays out.replay

replays-put :
    (d : Dict ReplayTarget (List String)) (t : ReplayTarget) (fp : String)
    → replays (put d t (fingerprints_at (get d t) ++ fp ∷ [])) ≡ suc (replays d)
unfolding get put
replays-put [] t fp = omega arith
replays-put ((u, fps) ∷ d) t fp = ground (arith, replays-put d t fp, length-append fps (fp ∷ []))

record Accounts (cap n : ℕ) (p : Progress) : Type 0 where
  all_counted :
      p.out.waiting + p.out.no_history + p.out.no_target + p.out.capped + acted_on p.out ≡ n
  acted_counted : p.acted ≡ acted_on p.out
  within_cap : p.acted ≤ cap
  cap_used : 0 < p.out.capped → p.acted ≡ cap

settle-Accounts :
    (cap n : ℕ) (fp : String) (p : Progress) (v : Verdict)
    → Accounts cap n p
    → Accounts cap (suc n) (settle cap fp p v)
unfolding settle add_replay
settle-Accounts cap n fp p without_history h = ground arith
settle-Accounts cap n fp p waits h = ground arith
settle-Accounts cap n fp p without_target h = ground arith
settle-Accounts cap n fp p exhausted h = ground (arith, length-append p.out.park (fp ∷ []))
settle-Accounts cap n fp p (due t) h = ground (arith, replays-put p.out.replay t fp)

sort_from-Accounts :
    (rules : Rules) (n : ℕ) (p : Progress) (records : List MessageRecord) (out : Plan)
    → Accounts rules.cap n p
    → sort_from rules p records ≡ ok out
    → (last : Progress) × (last.out ≡ out) × Accounts rules.cap (n + length records) last
unfolding sort_from
sort_from-Accounts rules n p [] out h e =
    (p, ground arith, subst (λ k. Accounts rules.cap k p) (omega arith) h)
sort_from-Accounts rules n p (r ∷ rest) out h e = elim (Result-cases (classify rules r)) [
  | returned v found ↦
      let (last, same, a) =
        sort_from-Accounts rules (suc n) (settle rules.cap r.fingerprint p v) rest out
          (settle-Accounts rules.cap n r.fingerprint p v h) (rw found at e) in
      (last, same, subst (λ k. Accounts rules.cap k last) (omega arith) a)
  | raised f found ↦ cc (rw found at e)
]

-- A plan that is made accounts for every message once: the numbers of those waiting, without
-- history, without a target, capped, parked and replayed add up to the number of records. It acts on
-- at most `cap` messages, and leaves one out for the cap only when it acts on exactly `cap`.
pub plan_accounts :
    (rules : Rules) (records : List MessageRecord) (out : Plan)
    → plan rules records ≡ ok out
    → (out.waiting + out.no_history + out.no_target + out.capped + acted_on out ≡ length records)
      × (acted_on out ≤ rules.cap)
      × (0 < out.capped → acted_on out ≡ rules.cap)
unfolding plan
plan_accounts rules records out e =
    let (last, same, a) =
      sort_from-Accounts rules 0 (record { out = empty; acted = 0 }) records out
        (record {
          all_counted = refl;
          acted_counted = refl;
          within_cap = omega arith;
          cap_used = λ h. absurd (omega arith);
        })
        e in
    subst
      (λ (o : Plan).
        (o.waiting + o.no_history + o.no_target + o.capped + acted_on o ≡ length records)
        × (acted_on o ≤ rules.cap)
        × (0 < o.capped → acted_on o ≡ rules.cap))
      same
      (
        omega (arith, a.all_counted),
        omega (arith, a.acted_counted, a.within_cap),
        λ h. omega (arith, a.cap_used h, a.acted_counted),
      )

-- ===== src/Guard/DuplicateSubmit/Memory.antt =====
-- What the guard remembers of one submission, through one call.
use solo_dual_mode.Prelude.{
  ℕ, suc, ◌+◌, ◌≤◌, ◌<◌, ◌≡◌, some, arith, Key, Option-cases, inl, inr, ite,
}
use solo_dual_mode.Prelude.Dict.{get, get-insert}
use solo_dual_mode.Prelude.Fifo.{behind, behind-push}
use solo_dual_mode.Guard.Loops.{drop_stale-Sound, drop_stale-keeps, drop_excess-keeps}
use solo_dual_mode.Guard.DuplicateSubmit.{
  DuplicateSubmitGuard, DuplicateSubmitEntry, DuplicateSubmitOutcome, in_flight, ts_of, outcome_of,
  prune, lookup, push_inflight, insert_inflight, overwrite, set_outcome, check,
}
use solo_dual_mode.Guard.DuplicateSubmit.Invariant.{
  IsValid, Call, checks, settles, step, prune-IsValid, prune_max, prune_ttl,
}

-- A key is noted since a time, with an outcome, and few keys stand behind it.
pub record Remembers {K : Type 0} ⦃key : Key K⦄ (g : DuplicateSubmitGuard K) (k : K) (since few : ℕ)
    (o : DuplicateSubmitOutcome) : Type 0 where
  pub at : ℕ
  pub rank : ℕ
  pub held : get k g.entries ≡ some (record { ts = at; outcome = o })
  pub place : behind k g.order ≡ some rank
  pub recent : since ≤ at
  pub close : rank ≤ few

module _ {K : Type 0} ⦃key : Key K⦄ where
  pub prune-Remembers :
      (g : DuplicateSubmitGuard K) (k : K) (since few now : ℕ) (o : DuplicateSubmitOutcome)
      → IsValid g
      → now ≤ since + g.ttl
      → few < g.max_entries
      → Remembers g k since few o
      → Remembers (prune g now) k since few o
  unfolding prune
  prune-Remembers g k since few now o v live fits r =
      let e : DuplicateSubmitEntry = record { ts = r.at; outcome = o } in
      let (placed, held) =
        drop_stale-keeps ts_of g.ttl now k e r.rank g.order g.entries r.place r.held
          (omega arith) in
      let (placed', held') =
        drop_excess-keeps g.max_entries k e r.rank _ _
          (drop_stale-Sound ts_of g.ttl now g.order g.entries v.sound) placed held (omega arith) in
      record {
        at = r.at;
        rank = r.rank;
        held = held';
        place = placed';
        recent = r.recent;
        close = r.close;
      }

  pub push_inflight-Remembers :
      (g : DuplicateSubmitGuard K) (k j : K) (since few now : ℕ) (o : DuplicateSubmitOutcome)
      → Remembers g k since few o
      → Remembers (push_inflight g j now) k since (suc few) o
  unfolding push_inflight
  push_inflight-Remembers g k j since few now o r = elim (Option-cases (get j g.entries)) [
    | inr (e, old) ↦
        rw (old, push_inflight)
          (record {
            at = r.at;
            rank = r.rank;
            held = r.held;
            place = r.place;
            recent = r.recent;
            close = omega (arith, r.close);
          })
    | inl fresh ↦
        rw (fresh, push_inflight)
          (record {
            at = r.at;
            rank = suc r.rank;
            held = ground (
              arith,
              get-insert j k (record { ts = now; outcome = in_flight }) g.entries,
              r.held,
            );
            place = behind-push k j r.rank g.order r.place;
            recent = r.recent;
            close = omega (arith, r.close);
          })
  ]

  -- The outcome after a settlement of some key.
  abbrev pub settled : K → Call K → DuplicateSubmitOutcome → DuplicateSubmitOutcome
  settled k (checks j) o = o
  settled k (settles j o') o = ite (key.dec j k) o' o

  pub overwrite-Remembers :
      (g : DuplicateSubmitGuard K) (k j : K) (since few now : ℕ) (o o' : DuplicateSubmitOutcome)
      → since ≤ now
      → Remembers g k since few o
      → Remembers (overwrite g j now o') k since few (settled k (settles j o') o)
  unfolding overwrite
  overwrite-Remembers g k j since few now o o' late r = elim (Option-cases (get j g.entries)) [
    | inl fresh ↦
        rw (fresh, overwrite)
          (record {
            at = r.at;
            rank = r.rank;
            held = ground (arith, r.held);
            place = r.place;
            recent = r.recent;
            close = r.close;
          })
    | inr (e, old) ↦
        rw (old, overwrite)
          (record {
            at = ite (key.dec j k) now r.at;
            rank = r.rank;
            held =
                ground
                  (arith, get-insert j k (record { ts = now; outcome = o' }) g.entries, r.held);
            place = r.place;
            recent = ground (arith, r.recent);
            close = r.close;
          })
  ]

  pub loosen :
      {g : DuplicateSubmitGuard K} {k : K} {since few more : ℕ} {o : DuplicateSubmitOutcome}
      → few ≤ more
      → Remembers g k since few o
      → Remembers g k since more o
  loosen h r = record {
    at = r.at;
    rank = r.rank;
    held = r.held;
    place = r.place;
    recent = r.recent;
    close = omega (arith, r.close);
  }

  -- How many keys a call may add.
  abbrev pub weight : Call K → ℕ
  weight (checks j) = 1
  weight (settles j o) = 0

  pub step-Remembers :
      (g : DuplicateSubmitGuard K) (k : K) (since few : ℕ) (o : DuplicateSubmitOutcome)
      (c : ℕ × Call K)
      → IsValid g
      → since ≤ c.0
      → c.0 ≤ since + g.ttl
      → few < g.max_entries
      → Remembers g k since few o
      → Remembers (step c g) k since (few + weight c.1) (settled k c.1 o)
  unfolding step check lookup insert_inflight set_outcome
  step-Remembers g k since few o (now, checks j) v late live fits r =
      let g' = prune g now in
      let r' = prune-Remembers g k since few now o v live fits r in
      elim (Option-cases (outcome_of (get j g'.entries))) [
        | inr (seen, old) ↦ rw (old, step, check) (loosen (omega arith) r')
        | inl fresh ↦
            rw (fresh, step, check)
              (loosen (omega arith) (
                push_inflight-Remembers (prune g' now) k j since few now o (
                  prune-Remembers g' k since few now o (prune-IsValid g now v)
                    (rw (prune_ttl g now) live) (rw (prune_max g now) fits) r')))
      ]
  step-Remembers g k since few o (now, settles j o') v late live fits r = loosen (omega arith) (
      overwrite-Remembers (prune g now) k j since few now o o' late
        (prune-Remembers g k since few now o v live fits r))

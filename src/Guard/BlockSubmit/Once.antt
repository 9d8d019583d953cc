-- ===== src/Guard/BlockSubmit/Once.antt =====
-- A block that was marked is not submitted again while its mark lasts.
use solo_dual_mode.Prelude.{
  ℕ, suc, ◌+◌, ◌≤◌, ◌<◌, ◌≡◌, ◌≢◌, refl, ◌∙◌, true, false, List, [], ◌∷◌, none, some, arith, All,
  Key, Option-cases, inl, inr,
}
use solo_dual_mode.Prelude.Dict.{get, get-insert, get-remove}
use solo_dual_mode.Prelude.Fifo.{behind, behind-push, behind-push_new}
use solo_dual_mode.Guard.Loops.{drop_stale-Sound, drop_stale-keeps, drop_excess-keeps}
use solo_dual_mode.Guard.BlockSubmit.{BlockSubmitGuard, instant, prune, mark, try_mark, remove}
use solo_dual_mode.Guard.BlockSubmit.Invariant.{
  IsValid, Call, marks, removes, step, run, step-IsValid, step_limits,
}

-- A hash is marked since a time, and few keys stand behind it in the queue.
pub record Marked {K : Type 0} ⦃key : Key K⦄ (g : BlockSubmitGuard K) (k : K) (since few : ℕ)
    : Type 0 where
  pub rank : ℕ
  pub held : get k g.entries ≡ some since
  pub place : behind k g.order ≡ some rank
  pub close : rank ≤ few

module _ {K : Type 0} ⦃key : Key K⦄ where
  prune-Marked :
      (g : BlockSubmitGuard K) (k : K) (since few now : ℕ)
      → IsValid g
      → now ≤ since + g.ttl
      → few < g.max_entries
      → Marked g k since few
      → Marked (prune g now) k since few
  unfolding prune
  prune-Marked g k since few now v live fits r =
      let (placed, held) =
        drop_stale-keeps instant g.ttl now k since r.rank g.order g.entries r.place r.held
          (omega arith) in
      let (placed', held') =
        drop_excess-keeps g.max_entries k since r.rank _ _
          (drop_stale-Sound instant g.ttl now g.order g.entries v) placed held (omega arith) in
      record { rank = r.rank; held = held'; place = placed'; close = r.close }

  mark-Marked :
      (g : BlockSubmitGuard K) (k j : K) (since few now : ℕ)
      → Marked g k since few
      → Marked (mark g j now).0 k since (suc few)
  unfolding mark
  mark-Marked g k j since few now r = elim (Option-cases (get j g.entries)) [
    | inr (ts, old) ↦
        rw (old, mark)
          (record { rank = r.rank; held = r.held; place = r.place; close = omega (arith, r.close) })
    | inl fresh ↦
        rw (fresh, mark)
          (record {
            rank = suc r.rank;
            held = ground (arith, get-insert j k now g.entries, r.held);
            place = behind-push k j r.rank g.order r.place;
            close = omega (arith, r.close);
          })
  ]

  -- How many keys a call may queue, and that it does not take the mark off a hash.
  abbrev pub weight : Call K → ℕ
  weight (marks j) = 1
  weight (removes j) = 0

  abbrev pub Spares : K → Call K → Type 0
  Spares k (marks j) = Unit
  Spares k (removes j) = j ≢ k

  unfoldable pub marks_in : List (ℕ × Call K) → ℕ
  marks_in [] = 0
  marks_in (c ∷ cs) = weight c.1 + marks_in cs

  loosen :
      {g : BlockSubmitGuard K} {k : K} {since few more : ℕ}
      → few ≤ more
      → Marked g k since few
      → Marked g k since more
  loosen h r = record {
    rank = r.rank;
    held = r.held;
    place = r.place;
    close = omega (arith, r.close);
  }

  step-Marked :
      (g : BlockSubmitGuard K) (k : K) (since few : ℕ) (c : ℕ × Call K)
      → IsValid g
      → c.0 ≤ since + g.ttl
      → Spares k c.1
      → few < g.max_entries
      → Marked g k since few
      → Marked (step c g) k since (few + weight c.1)
  unfolding step try_mark remove
  step-Marked g k since few (now, marks j) v live spared fits r =
      loosen (omega arith)
        (mark-Marked (prune g now) k j since few now (prune-Marked g k since few now v live fits r))
  step-Marked g k since few (now, removes j) v live spared fits r =
      let r' = prune-Marked g k since few now v live fits r in
      record {
        rank = r'.rank;
        held = ground (arith, get-remove j k (prune g now).entries, r'.held);
        place = r'.place;
        close = omega (arith, r'.close);
      }

  run-Marked :
      (cs : List (ℕ × Call K)) (g : BlockSubmitGuard K) (k : K) (since few : ℕ)
      → IsValid g
      → All (λ c. (c.0 ≤ since + g.ttl) × Spares k c.1) cs
      → few + marks_in cs < g.max_entries
      → Marked g k since few
      → IsValid (run cs g)
        × ((run cs g).max_entries ≡ g.max_entries)
        × ((run cs g).ttl ≡ g.ttl)
        × Marked (run cs g) k since (few + marks_in cs)
  unfolding run marks_in
  run-Marked [] g k since few v times fits r = (v, refl, refl, loosen (omega arith) r)
  run-Marked (c ∷ cs) g k since few v times fits r =
      let same = step_limits c g in
      let (v', max, ttl, r') =
        run-Marked cs (step c g) k since (few + weight c.1) (step-IsValid c g v) (rw same.1 times.1)
          (rw same.0 (omega (arith, fits)))
          (step-Marked g k since few c v times.0.0 times.0.1 (omega (arith, fits)) r) in
      (v', max ∙ same.0, ttl ∙ same.1, loosen (omega arith) r')

  fresh-Marked :
      (g : BlockSubmitGuard K) (k : K) (now : ℕ)
      → behind k g.order ≡ none
      → (mark g k now).1 ≡ true
      → Marked (mark g k now).0 k now 0
  unfolding mark
  fresh-Marked g k now unqueued h = elim (Option-cases (get k g.entries)) [
    | inr (ts, old) ↦ absurd (ground arith)
    | inl fresh ↦
        rw (fresh, mark)
          (record {
            rank = 0;
            held = ground (arith, get-insert k k now g.entries);
            place = behind-push_new k g.order unqueued;
            close = omega arith;
          })
  ]

  Marked-mark :
      (g : BlockSubmitGuard K) (k : K) (since few now : ℕ)
      → Marked g k since few
      → (mark g k now).1 ≡ false
  unfolding mark
  Marked-mark g k since few now r = ground (arith, r.held)

  -- A hash that is not queued and is marked at a time is refused by every later attempt to mark it
  -- within the time to live, whatever other marks and removals come in between, if these are fewer
  -- marks than the limit and no removal is of this hash.
  pub mark_once :
      (g : BlockSubmitGuard K) (k : K) (since now : ℕ) (cs : List (ℕ × Call K))
      → IsValid g
      → behind k (prune g since).order ≡ none
      → (try_mark g k since).1 ≡ true
      → All (λ c. (c.0 ≤ since + g.ttl) × Spares k c.1) cs
      → marks_in cs < g.max_entries
      → now ≤ since + g.ttl
      → (try_mark (run cs (try_mark g k since).0) k now).1 ≡ false
  unfolding step try_mark
  mark_once g k since now cs v unqueued h times fits live =
      let first = (try_mark g k since).0 in
      let (max, ttl) = step_limits (since, marks k) g in
      let (v', max', ttl', r) =
        run-Marked cs first k since 0 (step-IsValid (since, marks k) g v) (rw ttl times)
          (rw max (omega (arith, fits))) (fresh-Marked (prune g since) k since unqueued h) in
      Marked-mark (prune (run cs first) now) k since (0 + marks_in cs) now (
        prune-Marked (run cs first) k since (0 + marks_in cs) now v' (rw (ttl', ttl) live)
          (rw (max', max) (omega (arith, fits))) r)

-- ===== src/Submit/Handle/Total.antt =====
-- The whole handler always answers, and counts a submission at most once.
use solo_dual_mode.Prelude.{
  ℕ, ◌≤◌, ◌≡◌, ◌≢◌, refl, ◌∙◌, ◌⊎◌, inl, inr, false, List, [], ◌∷◌, Option, none, some, Key, arith,
  Option-cases, Bool-cases, ltb, length, get_elem?,
}
use solo_dual_mode.Guard.DuplicateSubmit.{check}
use solo_dual_mode.MiningState.{MiningState, Job, get_job, latest_job}
use solo_dual_mode.Chain.{Block}
use solo_dual_mode.Submit.{Shares, ShareRejectReason, malformed_frame, missing_job}
use solo_dual_mode.Submit.Text.{Value, parse_job_id, remove_0x, final_nonce, from_str_radix}
use solo_dual_mode.Submit.Settle.{Context, reject_share}
use solo_dual_mode.Submit.Accounts.{counts}
use solo_dual_mode.Submit.Handle.{
  Reply, find_job, nonce_param, submit_once, submit_nonce, handle_submit, malformed_event,
  bad_job_id, job_does_not_exist, bad_nonce,
}
use solo_dual_mode.Submit.Handle.Outcome.{tally, judge_once, submit_once-new, submit_once-known}

latest_job-held :
    {J D H : Type 0} (mining : MiningState J D H) (id : ℕ) (job : J)
    → latest_job mining ≡ some (id, job)
    → get_job mining id ≡ some job
unfolding latest_job
latest_job-held mining id job h = ground (arith, h)

final_nonce-short :
    (extranonce nonce : List ℕ)
    → length extranonce ≤ 16
    → (text : List ℕ) × (final_nonce extranonce nonce ≡ some text)
unfolding final_nonce
final_nonce-short [] nonce short = (nonce, refl)
final_nonce-short (e ∷ extranonce) nonce short =
    let fits : ltb 16 (length (e ∷ extranonce)) ≡ false = ground (arith, short) in
    rw (fits, final_nonce) (_, refl)

second_param : (params : List Value) → ltb (length params) 3 ≡ false → get_elem? params 1 ≢ none
second_param [] enough missing = absurd (ground (arith, enough))
second_param (a ∷ []) enough missing = absurd (ground (arith, enough))
second_param (a ∷ b ∷ params) enough missing = absurd (ground (arith, missing))

module _ {F N K R T Hash : Type 0} ⦃name : Key N⦄ ⦃submission : Key K⦄ ⦃hash : Key Hash⦄
    (ctx : Context F N K R T Hash) where
  find_job-held :
      (job_id id : ℕ) (job : Job (Block R T) Hash)
      → find_job ctx job_id ≡ some (id, job)
      → get_job ctx.mining id ≡ some job
  unfolding find_job
  find_job-held job_id id job h = elim (Option-cases (get_job ctx.mining job_id)) [
    | inl missing ↦ latest_job-held ctx.mining id job (ground (arith, missing, h))
    | inr (held, e) ↦ ground (arith, e, h)
  ]

  -- An answer, for which a submission is counted at most once.
  abbrev Answers : Shares F N K R T Hash → Option (Shares F N K R T Hash × Reply) → Type 0
  Answers s o =
      (s' : Shares F N K R T Hash) × (reply : Reply) × (o ≡ some (s', reply))
      × ((counts s'.overall ≡ counts s.overall)
          ⊎ (counts s'.overall ≡ tally reply (counts s.overall)))

  submit_once-Answers :
      (k : K) (nonce job_id : ℕ) (job : Job (Block R T) Hash) (s : Shares F N K R T Hash)
      → get_job ctx.mining 0 ≡ none
      → get_job ctx.mining job_id ≡ some job
      → Answers s (submit_once ctx k nonce job_id job s)
  submit_once-Answers k nonce job_id job s no_zero held =
      elim (Option-cases (check s.guard k ctx.checked_at).1) [
        | inr (outcome, seen) ↦
            (_, _, submit_once-known ctx k nonce job_id job s outcome seen, inl refl)
        | inl fresh ↦
            let pruned = record s { guard = (check s.guard k ctx.checked_at).0 } in
            let (s', reply, e, j) = judge_once ctx k nonce job_id job pruned no_zero held in
            (s', reply, submit_once-new ctx k nonce job_id job s fresh ∙ e, inr j.overall)
      ]

  submit_nonce-Answers :
      (params : List Value) (id : ℕ) (job : Job (Block R T) Hash) (s : Shares F N K R T Hash)
      → length ctx.extranonce ≤ 16
      → get_job ctx.mining 0 ≡ none
      → get_job ctx.mining id ≡ some job
      → Answers s (submit_nonce ctx params (id, job) s)
  unfolding submit_nonce
  submit_nonce-Answers params id job s short no_zero held =
      elim (Option-cases (nonce_param params)) [
        | inl bad ↦ rw (bad, submit_nonce) (s, bad_nonce, refl, inl refl)
        | inr (text, given) ↦
            let (final, e) = final_nonce-short ctx.extranonce (remove_0x text) short in
            elim (Option-cases (from_str_radix final 16)) [
              | inl bad ↦ rw (given, e, bad, submit_nonce) (s, bad_nonce, refl, inl refl)
              | inr (nonce, parsed) ↦
                  rw (given, e, parsed, submit_nonce)
                    (submit_once-Answers (ctx.submit_key id final) nonce id job s no_zero held)
            ]
      ]

  rejected-Answers :
      (reason : ShareRejectReason) (s : Shares F N K R T Hash)
      → counts (reject_share ctx reason s).overall ≡ counts s.overall
  unfolding reject_share
  rejected-Answers reason s = ground arith

  -- The handler answers every request without a panic, and in doing so it leaves the counters of
  -- shares as they are or counts one share, as the reply says. The extranonce may have at most 16
  -- characters, and no job may have the number 0.
  pub handle_total :
      (params : List Value) (s : Shares F N K R T Hash)
      → length ctx.extranonce ≤ 16
      → get_job ctx.mining 0 ≡ none
      → Answers s (handle_submit ctx params s)
  unfolding handle_submit
  handle_total params s short no_zero = elim (Bool-cases (ltb (length params) 3)) [
    | inl few ↦
        rw (few, handle_submit) (_, malformed_event, refl, inl (rejected-Answers malformed_frame s))
    | inr enough ↦ elim (Option-cases (get_elem? params 1)) [
      | inl missing ↦ absurd (second_param params enough missing)
      | inr (value, given) ↦ elim (Option-cases (parse_job_id value)) [
        | inl bad ↦ rw (enough, given, bad, handle_submit) (s, bad_job_id, refl, inl refl)
        | inr (job_id, parsed) ↦ elim (Option-cases (find_job ctx job_id)) [
          | inl gone ↦
              rw (enough, given, parsed, gone, handle_submit)
                (_, job_does_not_exist, refl, inl (rejected-Answers missing_job s))
          | inr ((id, job), found) ↦
              rw (enough, given, parsed, found, handle_submit)
                (submit_nonce-Answers params id job s short no_zero
                  (find_job-held job_id id job found))
        ]
      ]
    ]
  ]

-- ===== src/Hasher/Tests.antt =====
-- A hash of 32 equal bytes.
use solo_dual_mode.Prelude.{ℕ, ◌≡◌, refl, List, some, arith, replicate}
use solo_dual_mode.Hasher.{
  to_le_bytes, hex, generate_job_header, generate_large_job_params, generate_iceriver_job_params,
}
use solo_dual_mode.Hasher.Words.{spread}
use solo_dual_mode.Hasher.Forms.{read_job, forms_agree, job_read}

abbrev hash : List ℕ
hash = replicate 32 171

forms_agree_example :
    generate_large_job_params hash 1_700_000_000_000
    ≡ some (generate_iceriver_job_params hex hex hash 1_700_000_000_000)
forms_agree_example =
    forms_agree hash (omega arith) refl hex hex refl (λ bs. refl) 1_700_000_000_000

job_read_example :
    (read_job (generate_iceriver_job_params hex hex hash 1_700_000_000_000)
      ≡ (hash, 1_700_000_000_000))
    × (spread (to_le_bytes 8) (generate_job_header hash) ≡ hash)
job_read_example =
    job_read hash (omega arith) refl hex hex refl (λ bs. refl) 1_700_000_000_000 (omega arith)

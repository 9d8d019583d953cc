-- ===== src/Rpc/Names.antt =====
-- The two directions between texts and methods, which have a table of literals each.
use solo_dual_mode.Prelude.{ℕ, ◌≡◌, refl, ap, ◌∙◌, List, [], ◌∷◌, All, arith, inl, inr}
use solo_dual_mode.Text.{text_dec}
use solo_dual_mode.Rpc.{
  StratumMethod, subscribe, extranonce_subscribe, authorize, submit, set_difficulty, notify,
  set_extranonce, method_name, method_arms, match_arms, method_of,
}

-- When every arm yields the method of its literal, a text is the name of what it matches.
matched_name :
    (arms : List (List ℕ × StratumMethod)) (s : List ℕ)
    → All (λ arm. method_name arm.1 ≡ arm.0) arms
    → method_name (match_arms arms s) ≡ s
unfolding match_arms method_name
matched_name [] s right = refl
matched_name ((literal, m) ∷ arms) s (right, rest) = ground (arith, right, matched_name arms s rest)

-- The methods with a name of their own.
abbrev pub named_methods : List StratumMethod
named_methods =
    subscribe ∷ extranonce_subscribe ∷ authorize ∷ submit ∷ set_difficulty ∷ notify ∷ set_extranonce
    ∷ []

arms_agree : All (λ arm. method_name arm.1 ≡ arm.0) method_arms
unfolding method_name
arms_agree = (refl, (refl, (refl, (refl, (refl, (refl, (refl, tt)))))))

named_back : All (λ m. method_of (method_name m) ≡ m) named_methods
unfolding method_of match_arms method_name text_dec solo_dual_mode.Prelude.ℕ_discrete
named_back = (refl, (refl, (refl, (refl, (refl, (refl, (refl, tt)))))))

-- Every text is the name of the method that it is read as, and every method with a name of its own
-- is read back from that name.
pub method_name-of :
    (s : List ℕ)
    → (method_name (method_of s) ≡ s) × All (λ m. method_of (method_name m) ≡ m) named_methods
unfolding method_of
method_name-of s = (matched_name method_arms s arms_agree, named_back)

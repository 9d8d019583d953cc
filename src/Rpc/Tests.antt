-- ===== src/Rpc/Tests.antt =====
-- Names of methods that the bridge knows and one that it does not.
use solo_dual_mode.Prelude.{◌≡◌, refl, All}
use solo_dual_mode.Text.{codes, text_dec}
use solo_dual_mode.Rpc.{submit, other, method_name, method_of, match_arms}
use solo_dual_mode.Rpc.Names.{named_methods, method_name-of}

method_name-of_example :
    (method_name (method_of (codes "mining.submit")) ≡ codes "mining.submit")
    × All (λ m. method_of (method_name m) ≡ m) named_methods
method_name-of_example = method_name-of (codes "mining.submit")

knows_submit : method_of (codes "mining.submit") ≡ submit
unfolding method_of match_arms method_name text_dec solo_dual_mode.Prelude.ℕ_discrete
knows_submit = refl

minds_case : method_of (codes "Mining.Submit") ≡ other (codes "Mining.Submit")
unfolding method_of match_arms method_name text_dec solo_dual_mode.Prelude.ℕ_discrete
minds_case = refl

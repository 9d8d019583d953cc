-- ===== src/AntiAbuse/Entries.antt =====
-- An entry of the guard's map against the tickets of its address.
use solo_dual_mode.Prelude.{
  ℕ, suc, ◌-◌, ◌≤◌, ◌<◌, ◌≡◌, List, ◌∷◌, Option, none, some, arith, Key, ite,
}
use solo_dual_mode.Prelude.Dict.{
  Dict, get, insert, remove, size, IsDict, get-insert, get-remove, size-insert,
}
use solo_dual_mode.AntiAbuse.{AntiAbuseConfig, AntiAbuseGuard, Bucket, IpEntry, try_consume}
use solo_dual_mode.AntiAbuse.Connections.{held, drop_one, held-drop_one}

-- What an entry says, where `n` tickets are held.
abbrev pub Tells : {F : Type 0} → ℕ → Option (IpEntry F) → ℕ → Type 0
Tells cap none n = n ≡ 0
Tells cap (some e) n = (e.conn_count ≡ n) × (0 < n) × (n ≤ cap)

abbrev pub Counted :
    {K F : Type 0} ⦃key : Key K⦄ → AntiAbuseConfig F → AntiAbuseGuard K F × List K → Type 0
Counted config (g, tickets) =
    (g.config ≡ config)
    × IsDict g.state
    × (size g.state ≤ config.max_tracked_ips)
    × ((j : _) → Tells config.max_conn_per_ip (get j g.state) (held j tickets))

module _ {F : Type 0} (limit : ℕ) where
  Tells-ite :
      {P : Type 0} (d : Dec P) (o o' : Option (IpEntry F)) (n n' : ℕ)
      → Tells limit o n
      → Tells limit o' n'
      → Tells limit (ite d o o') (ite d n n')
  Tells-ite (yes p) o o' n n' t t' = t
  Tells-ite (no np) o o' n n' t t' = t'

-- The entry of one address changes, and so do its tickets.
module _ {K F : Type 0} ⦃key : Key K⦄ (limit : ℕ) (d : Dict K (IpEntry F)) (ip : K) (n : ℕ)
    (f h : K → ℕ) (tells : (j : K) → Tells limit (get j d) (f j))
    (at : (j : K) → h j ≡ ite (key.dec ip j) n (f j)) where
  pub insert-Tells :
      (e : IpEntry F) → Tells limit (some e) n → (j : K) → Tells limit (get j (insert ip e d)) (h j)
  insert-Tells e told j =
      rw (get-insert ip j e d, at j)
        (Tells-ite limit (key.dec ip j) (some e) (get j d) n (f j) told (tells j))

  pub remove-Tells : n ≡ 0 → (j : K) → Tells limit (get j (remove ip d)) (h j)
  remove-Tells zeroed j =
      rw (get-remove ip j d, at j)
        (Tells-ite limit (key.dec ip j) none (get j d) n (f j) zeroed (tells j))

module _ {K : Type 0} ⦃key : Key K⦄ where
  pub held_self :
      (ip j : K) (tickets : List K)
      → held j tickets ≡ ite (key.dec ip j) (held ip tickets) (held j tickets)
  held_self ip j tickets = ground arith

  pub held_more :
      (ip j : K) (tickets : List K)
      → held j (ip ∷ tickets) ≡ ite (key.dec ip j) (suc (held ip tickets)) (held j tickets)
  unfolding held
  held_more ip j tickets = ground arith

  pub held_less :
      (ip j : K) (tickets : List K)
      → held j (drop_one ip tickets) ≡ ite (key.dec ip j) (held ip tickets - 1) (held j tickets)
  held_less ip j tickets = ground (arith, held-drop_one ip j tickets)

pub size_replaced :
    {K F : Type 0} ⦃key : Key K⦄ (d : Dict K (IpEntry F)) (ip : K) (e e' : IpEntry F)
    → get ip d ≡ some e
    → size (insert ip e' d) ≡ size d
size_replaced d ip e e' h = ground (arith, size-insert ip e' d, h)

pub size_added :
    {K F : Type 0} ⦃key : Key K⦄ (d : Dict K (IpEntry F)) (ip : K) (e' : IpEntry F)
    → get ip d ≡ none
    → size (insert ip e' d) ≡ suc (size d)
size_added d ip e' h = ground (arith, size-insert ip e' d, h)

pub try_consume_count :
    {F : Type 0} (ops : Bucket F) (entry : IpEntry F) (now : ℕ) (rate burst : F)
    → (try_consume ops entry now rate burst).0.conn_count ≡ entry.conn_count
unfolding try_consume
try_consume_count ops entry now rate burst = ground arith

-- ===== src/Table/Setup/Exit.antt =====
-- Emptying and freeing the table ends, whatever is in it.
use ip_qos.Base.{
  ℕ, zero, suc, ◌+◌, ◌≤◌, ◌≡◌, refl, [], ◌∷◌, length, get_or, set, length-set, lt→ltb,
  get_elem?-get_or, true, arith,
}
use ip_qos.Kernel.{Kernel, done, live, null, MarktblHead, Chain, get_bounded, set_bounded, ◌>>=◌}
use ip_qos.State.{Tables, up}
use ip_qos.Table.Setup.{
  is_null, clean_chain, clean_from, marktbl_hash_clean, qos_marktbl_hashtbl_exit,
}

module _ {T : Type 0} (k : Kernel T) where
  abbrev with_head : MarktblHead → Kernel T
  with_head h = record k { marktbl = live h }

  clean_chain_run :
      (c : Chain) (h : MarktblHead)
      → (e : ℕ) × (clean_chain c (with_head h) ≡ done (tt, with_head (record h { elem_num = e })))
  unfolding clean_chain
  clean_chain_run [] h = (h.elem_num, refl)
  clean_chain_run (n ∷ c) h = clean_chain_run c _

  clean_from_run :
      (left i : ℕ) (h : MarktblHead)
      → i + left ≤ length h.ht
      → (h' : MarktblHead) × (clean_from left i (with_head h) ≡ done (tt, with_head h'))
  unfolding clean_from
  clean_from_run zero i h inside = (h, refl)
  clean_from_run (suc left) i h inside =
      let (e, run) = clean_chain_run (get_or h.ht i []) h in
      let (h', rest) =
        clean_from_run left (suc i) (record h { elem_num = e; ht = set h.ht i [] })
          (rw length-set (omega arith)) in
      (
        h',
        rw (get_elem?-get_or h.ht i [] (omega arith), ◌>>=◌, get_bounded)
            (rw (run, lt→ltb i (length h.ht) (omega arith), ◌>>=◌, set_bounded) rest),
      )

pub qos_marktbl_hashtbl_exit_run :
    {T : Type 0} (k : Kernel T) (s : Tables)
    → s.size ≤ length s.ht
    → qos_marktbl_hashtbl_exit (up k s) ≡ done (tt, record (up k s) { marktbl = null })
unfolding qos_marktbl_hashtbl_exit marktbl_hash_clean is_null
qos_marktbl_hashtbl_exit_run k s wide =
    let (h', run) =
      clean_from_run (up k s) s.size 0
        (record { elem_num = s.elem_num; size = s.size; ht = s.ht; lock = true }) (omega arith) in
    rw (run, ◌>>=◌) refl

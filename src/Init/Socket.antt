-- ===== src/Init/Socket.antt =====
-- The netlink socket is there after qmark_tc_sock_init exactly if it succeeds.
use ip_qos.Base.{ℕ, ◌≡◌, refl, Bool, Bool-cases, inl, inr, if◌then◌else◌}
use ip_qos.Init.{sock_exit, qmark_tc_sock_init, qmark_tc_sock_exit}
use ip_qos.Init.Device.{with_registry}
use ip_qos.Kernel.{Kernel, Status, ok, error, done, is_ok}
use ip_qos.Registry.{Registry, no_handle, held}

module _ (k : Kernel Registry) (r : Registry) where
  pub qmark_tc_sock_init_lem :
      r.qmark_sock ≡ no_handle
      → (ret : Status) × (later : ℕ → Bool) × (qmark_tc_sock_init (with_registry k r)
          ≡ done (
            ret,
            with_registry k
                (record r { answers = later; qmark_sock = if is_ok ret then held else no_handle }),
          ))
  unfolding qmark_tc_sock_init sock_exit qmark_tc_sock_exit
  qmark_tc_sock_init_lem absent = elim (Bool-cases (r.answers 0)) [
    | inr failed ↦ rw (absent, failed) (error, _, refl)
    | inl created ↦ elim (Bool-cases (r.answers 1)) [
      | inr failed ↦ rw (created, failed) (error, _, refl)
      | inl sndbuf ↦ elim (Bool-cases (r.answers 2)) [
        | inr failed ↦ rw (created, sndbuf, failed) (error, _, refl)
        | inl rcvbuf ↦ elim (Bool-cases (r.answers 3)) [
          | inr failed ↦ rw (created, sndbuf, rcvbuf, failed) (error, _, refl)
          | inl bound ↦ elim (Bool-cases (r.answers 4)) [
            | inr failed ↦ rw (created, sndbuf, rcvbuf, bound, failed) (error, _, refl)
            | inl named ↦ elim (Bool-cases (r.answers 5)) [
              | inr failed ↦ rw (created, sndbuf, rcvbuf, bound, named, failed) (error, _, refl)
              | inl long ↦ elim (Bool-cases (r.answers 6)) [
                | inr failed ↦
                    rw (created, sndbuf, rcvbuf, bound, named, long, failed) (error, _, refl)
                | inl netlink ↦
                    rw (created, sndbuf, rcvbuf, bound, named, long, netlink) (ok, _, refl)
              ]
            ]
          ]
        ]
      ]
    ]
  ]

  pub qmark_tc_sock_exit_lem :
      r.qmark_sock ≡ held
      → qmark_tc_sock_exit (with_registry k r)
        ≡ done (tt, with_registry k (record r { qmark_sock = no_handle }))
  unfolding qmark_tc_sock_exit
  qmark_tc_sock_exit_lem there = rw there refl

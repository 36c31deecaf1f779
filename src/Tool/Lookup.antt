-- ===== src/Tool/Lookup.antt =====
-- The tool's -C, from the text of the address to the line with the mark.
use ip_qos.Base.{
  ℕ, ◌+◌, ◌%◌, ◌<◌, ◌≡◌, refl, Bool-cases, inl, inr, List, [], ◌∷◌, ◌++◌, ap, ◌∙◌, if◌then◌else◌,
  ◌==◌,
}
use mathlib.Core.List.{append_assoc}
use ip_qos.Base.Word.{u32_mod}
use ip_qos.Consistent.{IsConsistent}
use ip_qos.Ioctl.Safe.{mark_in, qmark_cdev_ioctl_check}
use ip_qos.Kernel.{Kernel, done, ◌>>=◌}
use ip_qos.State.{Tables, up, idle}
use ip_qos.Table.Buckets.{view}
use ip_qos.TcRules.{TcRules}
use ip_qos.Text.{Text}
use ip_qos.Options.{Locals, Printed, failed, mark_line}
use ip_qos.Tool.{option_step, ask_mark}
use ip_qos.Tool.Reading.{dotted, address, addressed, with_address-dotted}

module _ {T : Type 0} (tc : TcRules T) (set_devices : Text → Text → T → T) (k : Kernel T)
    (s : Tables) (consistent : IsConsistent s) (l : Locals) (a b c d : ℕ) where
  -- The address that is asked for: the octets come on top of the address that is there.
  abbrev pub asked : ℕ
  asked = (l.qh.ip + address a b c d) % u32_mod

  abbrev pub answer : ℕ
  answer = if asked == 0 then l.qh.mark else mark_in (view s.ht asked)

  abbrev pub lines : List Printed
  lines = if asked == 0 then failed b'C' ∷ mark_line answer ∷ [] else mark_line answer ∷ []

  abbrev checked : Locals
  checked = record l {
    ip0 = a;
    ip1 = b;
    ip2 = c;
    ip3 = d;
    qh = record l.qh { ip = asked; mark = answer };
    out = l.out ++ lines;
  }

  ask_mark_run :
      ask_mark tc set_devices (addressed a b c d l) (up (idle k) s) ≡ done (checked, up (idle k) s)
  unfolding ask_mark
  ask_mark_run =
      let run = qmark_cdev_ioctl_check tc set_devices k s consistent (record l.qh { ip = asked }) in
      elim (Bool-cases (asked == 0)) [
        | inl no_address ↦
            rw (run, no_address, ◌>>=◌, if◌then◌else◌)
              (ap (λ o. done (record (addressed a b c d l) { out = o }, up (idle k) s))
                (append_assoc l.out (failed b'C' ∷ []) (mark_line l.qh.mark ∷ [])))
        | inr some_address ↦ rw (run, some_address, ◌>>=◌, if◌then◌else◌) refl
      ]

  -- With the text of an address, qmark -C asks from consistent tables for that address added to
  -- the address that the run has read before, modulo 2 ^ 32, prints the mark of its node or 0, or
  -- a failure and the old mark where the sum is 0, and changes no table.
  pub option_step_check :
      a < 256
      → b < 256
      → c < 256
      → d < 256
      → option_step tc set_devices b'C' (dotted a b c d []) l (up (idle k) s)
        ≡ done (
          record l {
            ip0 = a;
            ip1 = b;
            ip2 = c;
            ip3 = d;
            qh = record l.qh { ip = asked; mark = answer };
            out = l.out ++ lines;
          },
          up (idle k) s,
        )
  unfolding option_step
  option_step_check a_small b_small c_small d_small =
      ap (λ (l' : Locals). ask_mark tc set_devices l' (up (idle k) s))
        (with_address-dotted a b c d a_small b_small c_small d_small l)
      ∙ ask_mark_run

-- ===== src/Tool/Reading.antt =====
-- The texts that the tool reads: addresses with dots, and rules.
use ip_qos.Base.{ℕ, ◌+◌, ◌*◌, ◌%◌, ◌^◌, ◌<◌, ◌≡◌, ◌∙◌, ap, List, [], ◌∷◌, ◌++◌, arith}
use ip_qos.Base.Word.{u32_mod}
use ip_qos.Text.{Text, Directive, num, number, blank, literal, sscanf, print_unsigned}
use ip_qos.Text.Scan.{Stops, Stops-dot, sscanf-number, sscanf-literal, sscanf-blank}
use ip_qos.Options.{Locals, with_address, add_octets, address_format}

-- A number with a dot behind it, and one with a space before it.
octet :
    (ds : List Directive) (v : ℕ) (rest : Text)
    → v < 256
    → sscanf (number ∷ literal b'.' ∷ ds) (print_unsigned v ++ (b'.' ∷ rest))
      ≡ num v ∷ sscanf ds rest
octet ds v rest small =
    sscanf-number (literal b'.' ∷ ds) v (b'.' ∷ rest) (Stops-dot rest) (omega arith)
    ∙ ap (λ vs. num v ∷ vs) (sscanf-literal ds b'.' rest)

pub spaced :
    (ds : List Directive) (v : ℕ) (rest : Text)
    → v < 0x8000_0000
    → Stops rest
    → sscanf (blank ∷ number ∷ ds) (32 ∷ print_unsigned v ++ rest) ≡ num v ∷ sscanf ds rest
spaced ds v rest small stops =
    sscanf-blank (number ∷ ds) v rest ∙ sscanf-number ds v rest stops small

module _ (a b c d : ℕ) where
  -- `a.b.c.d`, and what follows.
  abbrev pub dotted : Text → Text
  dotted rest =
      print_unsigned a
      ++ (b'.' ∷ print_unsigned b ++ (b'.' ∷ print_unsigned c ++ (b'.' ∷ print_unsigned d ++ rest)))

  abbrev pub address : ℕ
  address = a * 2 ^ 24 + (b * 2 ^ 16 + (c * 2 ^ 8 + d))

  -- The octets are stored, and their sum is added to the address that is there.
  abbrev pub addressed : Locals → Locals
  addressed l = record l {
    ip0 = a;
    ip1 = b;
    ip2 = c;
    ip3 = d;
    qh = record l.qh { ip = (l.qh.ip + address) % u32_mod };
  }

  module _ (a_small : a < 256) (b_small : b < 256) (c_small : c < 256) (d_small : d < 256) where
    pub add_octets_lem : (ip : ℕ) → add_octets ip a b c d ≡ (ip + address) % u32_mod
    add_octets_lem ip = omega arith

    pub sscanf-dotted :
        (ds : List Directive) (rest : Text)
        → Stops rest
        → sscanf (address_format ++ ds) (dotted rest)
          ≡ num a ∷ num b ∷ num c ∷ num d ∷ sscanf ds rest
    sscanf-dotted ds rest stops =
        let last = sscanf-number ds d rest stops (omega arith) in
        let third = octet (number ∷ ds) c (print_unsigned d ++ rest) c_small in
        octet (number ∷ literal b'.' ∷ number ∷ literal b'.' ∷ number ∷ ds) a _ a_small
        ∙ ap (λ vs. num a ∷ vs)
            (octet (number ∷ literal b'.' ∷ number ∷ ds) b _ b_small
              ∙ ap (λ vs. num b ∷ vs) (third ∙ ap (λ vs. num c ∷ vs) last))

    pub with_address-dotted :
        (l : Locals) → with_address (sscanf address_format (dotted [])) l ≡ addressed l
    with_address-dotted l =
        ap (λ vs. with_address vs l) (sscanf-dotted [] [] tt)
        ∙ ap
            (λ (ip : ℕ). record l {
              ip0 = a;
              ip1 = b;
              ip2 = c;
              ip3 = d;
              qh = record l.qh { ip = ip };
            })
            (add_octets_lem l.qh.ip)

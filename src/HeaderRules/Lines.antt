-- ===== src/HeaderRules/Lines.antt =====
-- The lines of printed headers, as parseHeaders of internal/headers/processor.go reads them.
use sendry.Base.{
  ℕ, ◌≡◌, refl, ap, Bool, true, false, List, [], ◌∷◌, ◌++◌, Text, Without, is_empty, is_space,
  trim_left, trim_right, trim_space, split_first-append, arith,
}
use sendry.HeaderRules.{Header, trim_cr, parse_line}

abbrev pub starts_blank : Text → Bool
starts_blank [] = true
starts_blank (c ∷ s) = is_space c

-- A header on one line, with no white space around its parts.
pub record IsPlain (h : Header) : Type 0 where
  pub named : starts_blank h.name ≡ false
  pub name_left : trim_left h.name ≡ h.name
  pub name_right : trim_right h.name ≡ h.name
  pub no_colon : Without b':' h.name
  pub name_line : Without 10 h.name
  pub content_left : trim_left h.content ≡ h.content
  pub content_right : trim_right h.content ≡ h.content
  pub content_line : Without 10 h.content

abbrev pub line : Header → Text
line h = h.name ++ (b':' ∷ b' ' ∷ h.content)

Without-append : (c : ℕ) (s t : Text) → Without c s → Without c t → Without c (s ++ t)
Without-append c [] t v w = w
Without-append c (x ∷ s) t v w = (v.0, Without-append c s t v.1 w)

pub line-Without : (h : Header) → IsPlain h → Without 10 (line h)
line-Without h p =
    Without-append 10 h.name (b':' ∷ b' ' ∷ h.content) p.name_line
      ((λ q. absurd (omega arith)), ((λ q. absurd (omega arith)), p.content_line))

trim_cr-append : (s t : Text) → is_empty t ≡ false → trim_cr (s ++ t) ≡ s ++ trim_cr t
unfolding trim_cr
trim_cr-append [] t h = refl
trim_cr-append (c ∷ []) [] h = absurd (ground arith)
trim_cr-append (c ∷ []) (d ∷ t) h = refl
trim_cr-append (c ∷ (x ∷ s)) t h = ap (λ r. c ∷ r) (trim_cr-append (x ∷ s) t h)

-- The CR that ends a line is taken off.
pub trim_cr_end : (s : Text) → trim_cr (s ++ (13 ∷ [])) ≡ s
unfolding trim_cr
trim_cr_end [] = refl
trim_cr_end (c ∷ []) = ground arith
trim_cr_end (c ∷ (x ∷ s)) = ap (λ r. c ∷ r) (trim_cr_end (x ∷ s))

trim_right-trim_cr : (s : Text) → trim_right s ≡ s → trim_cr s ≡ s
unfolding trim_right trim_cr is_space
trim_right-trim_cr [] h = refl
trim_right-trim_cr (c ∷ []) h = ground arith
trim_right-trim_cr (c ∷ (x ∷ s)) h = ap (λ r. c ∷ r) (trim_right-trim_cr (x ∷ s) (ground arith))

pub trim_cr-line : (h : Header) → IsPlain h → trim_cr (line h) ≡ line h
unfolding trim_cr
trim_cr-line h p =
    let rest : Text = b':' ∷ b' ' ∷ h.content in
    let kept : trim_cr rest ≡ rest =
      after_colon h.content (trim_right-trim_cr h.content p.content_right) in
    rw (trim_cr-append h.name rest refl, kept) refl
  where
    after_colon : (s : Text) → trim_cr s ≡ s → trim_cr (b':' ∷ b' ' ∷ s) ≡ b':' ∷ (b' ' ∷ s)
    after_colon [] e = refl
    after_colon (c ∷ s) e = ap (λ r. b':' ∷ (b' ' ∷ r)) e

-- A printed line is read back as its header.
pub parse_line_lem :
    (hs : List Header) (h : Header) → IsPlain h → parse_line hs (line h) ≡ hs ++ (h ∷ [])
unfolding parse_line trim_space is_space trim_left
parse_line_lem hs h p = go h.name refl p.named
  where
    go : (n : Text) → h.name ≡ n → starts_blank n ≡ false → parse_line hs (line h) ≡ hs ++ (h ∷ [])
    go [] e b = absurd (ground arith)
    go (c ∷ n) e b = ground (
      arith,
      e,
      b,
      split_first-append b':' h.name (b' ' ∷ h.content) p.no_colon,
      p.name_left,
      p.name_right,
      p.content_left,
      p.content_right,
    )

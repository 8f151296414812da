-- ===== src/HeaderRules/Mails.antt =====
-- What the rules of internal/headers/processor.go do to a mail.
use sendry.Base.{
  ℕ, ◌≡◌, ◌≢◌, refl, sym, ◌∙◌, ap, false, some, List, [], ◌∷◌, ◌++◌, append_assoc, Text, All,
  Without, is_space, split_text, split_all, has_prefix, arith,
}
use sendry.HeaderRules.{
  Header, Rule, parse_line, parse_loop, parse_headers, build_headers, build_email,
  split_headers_body, apply_each, apply_rules,
}
use sendry.HeaderRules.Lines.{
  IsPlain, starts_blank, line, line-Without, trim_cr_end, trim_cr-line, parse_line_lem,
}

abbrev separator : Text
separator = 13 ∷ 10 ∷ 13 ∷ 10 ∷ []

-- The headers without the end of their last line.
abbrev header_text : Header → List Header → Text
header_text h [] = line h
header_text h (i ∷ hs) = line h ++ (13 ∷ 10 ∷ header_text i hs)

build_email-cons :
    (h : Header) (hs : List Header) (body : Text)
    → build_email (h ∷ hs) body ≡ line h ++ (13 ∷ 10 ∷ build_email hs body)
unfolding build_email build_headers
build_email-cons h hs body =
    let one = append_assoc h.name (b':' ∷ b' ' ∷ h.content) (13 ∷ 10 ∷ build_headers hs) in
    let two = append_assoc (line h) (13 ∷ 10 ∷ build_headers hs) (13 ∷ 10 ∷ body) in
    ap (λ r. r ++ (13 ∷ 10 ∷ body)) (sym one) ∙ two

build_email-split :
    (h : Header) (hs : List Header) (body : Text)
    → build_email (h ∷ hs) body ≡ header_text h hs ++ (13 ∷ 10 ∷ 13 ∷ 10 ∷ body)
build_email-split h [] body =
    build_email-cons h [] body ∙ (unfold build_email build_headers in refl)
build_email-split h (i ∷ hs) body =
    build_email-cons h (i ∷ hs) body
    ∙ (ap (λ r. line h ++ (13 ∷ 10 ∷ r)) (build_email-split i hs body)
        ∙ sym (append_assoc (line h) (13 ∷ 10 ∷ header_text i hs) (13 ∷ 10 ∷ 13 ∷ 10 ∷ body)))

no_separator :
    (x : ℕ) (s t : Text) → Without 10 s → has_prefix separator (x ∷ (s ++ (13 ∷ t))) ≡ false
unfolding has_prefix
no_separator x [] t w = ground arith
no_separator x (y ∷ s) t w = ground (arith, w.0)

last_line :
    (s body : Text)
    → Without 10 s
    → split_text separator (s ++ (13 ∷ 10 ∷ 13 ∷ 10 ∷ body)) ≡ some (s, body)
unfolding split_text has_prefix
last_line [] body w = refl
last_line (x ∷ s) body w =
    ground (arith, no_separator x s (10 ∷ 13 ∷ 10 ∷ body) w.1, last_line s body w.1)

first_line :
    (s : Text) (c : ℕ) (t a b : Text)
    → Without 10 s
    → c ≢ 13
    → split_text separator (c ∷ t) ≡ some (a, b)
    → split_text separator (s ++ (13 ∷ 10 ∷ c ∷ t)) ≡ some (s ++ (13 ∷ 10 ∷ a), b)
unfolding split_text has_prefix
first_line [] c t a b w n h = ground (arith, n, h)
first_line (x ∷ s) c t a b w n h =
    ground (arith, no_separator x s (10 ∷ c ∷ t) w.1, first_line s c t a b w.1 n h)

name_first :
    (n s : Text) → starts_blank n ≡ false → (c : ℕ) × (r : Text) × (n ++ s ≡ c ∷ r) × (c ≢ 13)
unfolding is_space
name_first [] s b = absurd (ground arith)
name_first (c ∷ n) s b = (c, n ++ s, refl, (λ q. ground (arith, q)))

after_name :
    (h : Header) (hs : List Header) (t : Text) → (s : Text) × (header_text h hs ++ t ≡ h.name ++ s)
after_name h [] t = (_, append_assoc h.name (b':' ∷ b' ' ∷ h.content) t)
after_name h (i ∷ hs) t =
    let rest = 13 ∷ 10 ∷ header_text i hs in
    (_, append_assoc (line h) rest t ∙ append_assoc h.name (b':' ∷ b' ' ∷ h.content) (rest ++ t))

-- The first byte of printed headers is that of a name.
first_byte :
    (h : Header) (hs : List Header) (t : Text)
    → IsPlain h
    → (c : ℕ) × (r : Text) × (header_text h hs ++ t ≡ c ∷ r) × (c ≢ 13)
first_byte h hs t p =
    let (s, e) = after_name h hs t in
    let (c, r, e', n) = name_first h.name s p.named in (c, r, e ∙ e', n)

split_text-build :
    (h : Header) (hs : List Header) (body : Text)
    → All IsPlain (h ∷ hs)
    → split_text separator (header_text h hs ++ (13 ∷ 10 ∷ 13 ∷ 10 ∷ body))
      ≡ some (header_text h hs, body)
split_text-build h [] body p = last_line (line h) body (line-Without h p.0)
split_text-build h (i ∷ hs) body p =
    let (c, r, starts, n) = first_byte i hs (13 ∷ 10 ∷ 13 ∷ 10 ∷ body) p.1.0 in
    let rest = split_text-build i hs body p.1 in
    rw (append_assoc (line h) (13 ∷ 10 ∷ header_text i hs) (13 ∷ 10 ∷ 13 ∷ 10 ∷ body), starts)
      (first_line (line h) c r (header_text i hs) body (line-Without h p.0) n (rw starts at rest))

-- The lines as bytes.Split gives them: all but the last end in CR.
abbrev lines : Header → List Header → List Text
lines h [] = line h ∷ []
lines h (i ∷ hs) = (line h ++ (13 ∷ [])) ∷ lines i hs

split_all-one : (s : Text) → Without 10 s → split_all 10 s ≡ s ∷ []
unfolding split_all
split_all-one [] w = refl
split_all-one (x ∷ s) w = ground (arith, split_all-one s w.1, w.0)

split_all-line :
    (s t : Text) (p : Text) (ps : List Text)
    → Without 10 s
    → split_all 10 t ≡ p ∷ ps
    → split_all 10 (s ++ (13 ∷ 10 ∷ t)) ≡ (s ++ (13 ∷ [])) ∷ (p ∷ ps)
unfolding split_all
split_all-line [] t p ps w h = ground (arith, h)
split_all-line (x ∷ s) t p ps w h = ground (arith, split_all-line s t p ps w.1 h, w.0)

split_all-lines :
    (h : Header) (hs : List Header)
    → All IsPlain (h ∷ hs)
    → split_all 10 (header_text h hs) ≡ lines h hs
split_all-lines h [] p = split_all-one (line h) (line-Without h p.0)
split_all-lines h (i ∷ []) p =
    split_all-line (line h) _ _ _ (line-Without h p.0) (split_all-lines i [] p.1)
split_all-lines h (i ∷ (j ∷ hs)) p =
    split_all-line (line h) _ _ _ (line-Without h p.0) (split_all-lines i (j ∷ hs) p.1)

parse_loop-lines :
    (done : List Header) (h : Header) (hs : List Header)
    → All IsPlain (h ∷ hs)
    → parse_loop done (lines h hs) ≡ done ++ (h ∷ hs)
unfolding parse_loop
parse_loop-lines done h [] p = rw (trim_cr-line h p.0, parse_line_lem done h p.0) refl
parse_loop-lines done h (i ∷ hs) p =
    let step = ap (parse_line done) (trim_cr_end (line h)) ∙ parse_line_lem done h p.0 in
    ap (λ d. parse_loop d (lines i hs)) step
    ∙ (parse_loop-lines (done ++ (h ∷ [])) i hs p.1 ∙ append_assoc done (h ∷ []) (i ∷ hs))

split_headers_body-build :
    (h : Header) (hs : List Header) (body : Text)
    → All IsPlain (h ∷ hs)
    → ◌≡◌ {A = Text × Text}
        (split_headers_body (build_email (h ∷ hs) body))
        (header_text h hs, body)
unfolding split_headers_body
split_headers_body-build h hs body p =
    ap split_headers_body (build_email-split h hs body)
    ∙ ground (arith, split_text-build h hs body p)

-- On a mail with plain headers, at least one, the rules work on the list of its headers and leave
-- the body as it is, byte for byte: what is sent is the print of the headers that the rules give,
-- and of the same body. With no rule the mail comes out as it came in.
pub apply_rules-build :
    (h : Header) (hs : List Header) (body : Text) (rules : List Rule)
    → All IsPlain (h ∷ hs)
    → apply_rules (build_email (h ∷ hs) body) rules ≡ build_email (apply_each (h ∷ hs) rules) body
unfolding apply_rules parse_headers
apply_rules-build h hs body rules p =
    ap (λ r. build_email (apply_each (parse_headers r.0) rules) r.1)
      (split_headers_body-build h hs body p)
    ∙ ap (λ r. build_email (apply_each r rules) body)
        (ap (parse_loop []) (split_all-lines h hs p) ∙ parse_loop-lines [] h hs p)

-- ===== src/Ratelimit/Keys.antt =====
-- The keys of the counters: a key tells its level, and so its limit.
use sendry.Base.{
  ℕ, suc, ◌≤◌, ◌<◌, ◌≡◌, refl, Bool, true, false, not, Option, none, some, List, [], ◌∷◌, ◌++◌,
  Text, text_eq, text_eq_iff, drop, All, any, is_empty, arith, ◌==◌, ◌∙◌, if◌then◌else◌, codes,
}
use sendry.Ratelimit.{
  Level, global, domain, sender, ip, api_key, recipient, Config, LimitConfig, LimitCheck, Request,
  make_key, check_for, get_checks, get_recipient_domain_limit,
}

abbrev pub level_rank : Level → ℕ
level_rank global = 0
level_rank domain = 1
level_rank sender = 2
level_rank ip = 3
level_rank api_key = 4
level_rank recipient = 5

-- The level of a key, by its first byte.
pub key_level : Text → Level
key_level [] = recipient
key_level (x ∷ xs) =
    if x == b'g'
    then global
    else if x == b'd'
    then domain
    else if x == b's'
    then sender
    else if x == b'i'
    then ip
    else if x == b'a'
    then api_key
    else recipient

key_rank : Text → ℕ
key_rank k = level_rank (key_level k)

-- The limit of a key: that of its level, and for a recipient's domain the map's or the default.
unfoldable pub level_limit : Config → Level → Text → Option LimitConfig
level_limit cfg global k = cfg.global_limit
level_limit cfg domain k = cfg.default_domain
level_limit cfg sender k = cfg.default_sender
level_limit cfg ip k = cfg.default_ip
level_limit cfg api_key k = cfg.default_api_key
level_limit cfg recipient k = get_recipient_domain_limit cfg (drop 17 k)

pub limit_of : Config → Text → Option LimitConfig
unfolding level_limit key_level
limit_of cfg k = level_limit cfg (key_level k) k

key_rank-make_key : (l : Level) (k : Text) → key_rank (make_key l k) ≡ level_rank l
unfolding key_rank key_level make_key
key_rank-make_key global k = refl
key_rank-make_key domain k = refl
key_rank-make_key sender k = refl
key_rank-make_key ip k = refl
key_rank-make_key api_key k = refl
key_rank-make_key recipient k = refl

-- Checks stand in the order of their levels, one to a level at most.
Ascending : ℕ → List LimitCheck → Type 0
Ascending lo [] = Unit {0}
Ascending lo (c ∷ cs) = (lo ≤ key_rank c.key) × Ascending (suc (key_rank c.key)) cs

Ascending-mono : (lo hi : ℕ) (cs : List LimitCheck) → lo ≤ hi → Ascending hi cs → Ascending lo cs
unfolding Ascending
Ascending-mono lo hi [] h a = tt
Ascending-mono lo hi (c ∷ cs) h a = (omega arith, a.1)

Ascending-check_for :
    (lo : ℕ) (l : Level) (k : Text) (b : Bool) (o : Option LimitConfig) (rest : List LimitCheck)
    → lo ≤ level_rank l
    → Ascending (suc (level_rank l)) rest
    → Ascending lo (check_for l k b o ++ rest)
unfolding Ascending check_for
Ascending-check_for lo l k b none rest h a =
    Ascending-mono lo (suc (level_rank l)) rest (omega arith) a
Ascending-check_for lo l k true (some limit) rest h a = rw key_rank-make_key (h, a)
Ascending-check_for lo l k false (some limit) rest h a =
    Ascending-mono lo (suc (level_rank l)) rest (omega arith) a

Ascending-check_for_last :
    (lo : ℕ) (l : Level) (k : Text) (b : Bool) (o : Option LimitConfig)
    → lo ≤ level_rank l
    → Ascending lo (check_for l k b o)
unfolding Ascending check_for
Ascending-check_for_last lo l k b none h = tt
Ascending-check_for_last lo l k true (some limit) h = rw key_rank-make_key (h, tt)
Ascending-check_for_last lo l k false (some limit) h = tt

-- Is a key one of those that a list of checks counts under?
unfoldable pub covers : List LimitCheck → Text → Bool
covers cs k = any (λ c. text_eq c.key k) cs

below-not-covers :
    (lo : ℕ) (cs : List LimitCheck) (k : Text)
    → Ascending lo cs
    → key_rank k < lo
    → covers cs k ≡ false
unfolding Ascending covers any
below-not-covers lo [] k a h = refl
below-not-covers lo (c ∷ cs) k a h =
    ground (arith, text_eq_iff c.key k, below-not-covers (suc (key_rank c.key)) cs k a.1)

-- No check's key comes again further on.
abbrev pub Distinct : List LimitCheck → Type 0
Distinct [] = Unit {0}
Distinct (c ∷ cs) = (covers cs c.key ≡ false) × Distinct cs

Ascending-Distinct : (lo : ℕ) (cs : List LimitCheck) → Ascending lo cs → Distinct cs
unfolding Ascending
Ascending-Distinct lo [] a = tt
Ascending-Distinct lo (c ∷ cs) a = (
  below-not-covers (suc (key_rank c.key)) cs c.key a.1 (omega arith),
  Ascending-Distinct (suc (key_rank c.key)) cs a.1,
)

pub get_checks-Distinct : (cfg : Config) (req : Request) → Distinct (get_checks cfg req)
unfolding get_checks
get_checks-Distinct cfg req = Ascending-Distinct 0 (get_checks cfg req) (
    Ascending-check_for 0 global _ _ _ _ (omega arith) (
      Ascending-check_for 1 domain _ _ _ _ (omega arith) (
        Ascending-check_for 2 sender _ _ _ _ (omega arith) (
          Ascending-check_for 3 ip _ _ _ _ (omega arith) (
            Ascending-check_for 4 api_key _ _ _ _ (omega arith)
              (Ascending-check_for_last 5 recipient _ _ _ (omega arith)))))))

-- Every check of a request carries the limit of its key.
abbrev pub Limited : Config → LimitCheck → Type 0
Limited cfg c = limit_of cfg c.key ≡ some c.limit

All-append :
    (cfg : Config) (xs ys : List LimitCheck)
    → All (Limited cfg) xs
    → All (Limited cfg) ys
    → All (Limited cfg) (xs ++ ys)
All-append cfg [] ys hx hy = hy
All-append cfg (x ∷ xs) ys hx hy = (hx.0, All-append cfg xs ys hx.1 hy)

pub limit_of-make_key :
    (cfg : Config) (l : Level) (k : Text)
    → limit_of cfg (make_key l k) ≡ level_limit cfg l (make_key l k)
unfolding limit_of make_key
limit_of-make_key cfg global k = refl
limit_of-make_key cfg domain k = refl
limit_of-make_key cfg sender k = refl
limit_of-make_key cfg ip k = refl
limit_of-make_key cfg api_key k = refl
limit_of-make_key cfg recipient k = refl

pub check_for-Limited :
    (cfg : Config) (l : Level) (k : Text) (b : Bool) (o : Option LimitConfig)
    → level_limit cfg l (make_key l k) ≡ o
    → All (Limited cfg) (check_for l k b o)
unfolding check_for
check_for-Limited cfg l k b none h = tt
check_for-Limited cfg l k true (some limit) h = (limit_of-make_key cfg l k ∙ h, tt)
check_for-Limited cfg l k false (some limit) h = tt

pub get_checks-Limited : (cfg : Config) (req : Request) → All (Limited cfg) (get_checks cfg req)
unfolding get_checks level_limit make_key
get_checks-Limited cfg req =
    All-append cfg _ _ (check_for-Limited cfg global (codes "global") true _ refl) (
      All-append cfg _ _
        (check_for-Limited cfg domain req.req_domain (not (is_empty req.req_domain)) _ refl)
        (All-append cfg _ _
          (check_for-Limited cfg sender req.req_sender (not (is_empty req.req_sender)) _ refl)
          (All-append cfg _ _
            (check_for-Limited cfg ip req.req_ip (not (is_empty req.req_ip)) _ refl)
            (All-append cfg _ _
              (check_for-Limited cfg api_key req.req_api_key (not (is_empty req.req_api_key)) _
                refl)
              (check_for-Limited cfg recipient req.req_recipient (not (is_empty req.req_recipient))
                _ refl)))))

-- ===== src/PortInfo/Com.antt =====
-- The port name in the friendly name of a Windows device.
use cross_plaform_serial.Common.{
  ℕ, Bool, true, false, ◌&&◌, List, [], ◌∷◌, ◌++◌, ◌≡◌, ◌≢◌, ◌⊎◌, inl, inr, refl, sym, ◌∙◌, ap,
  arith, length, drop, if-cases, ◌≤◌, suc,
}
use cross_plaform_serial.PortInfo.Names.{starts_with}
use cross_plaform_serial.PortInfo.Windows.{
  com_prefix, com_token, is_digit, leading_digits, starts_with_digit,
}

abbrev pub AllDigits : List ℕ → Type 0
AllDigits [] = Unit
AllDigits (c ∷ cs) = (is_digit c ≡ true) × AllDigits cs

-- No "COM" with a digit behind it.
abbrev pub HasNoToken : List ℕ → Type 0
HasNoToken w = (p q : List ℕ) (c : ℕ) → w ≡ p ++ com_prefix ++ (c ∷ q) → is_digit c ≡ false

-- A text is "COM" with all the digits that follow, at the first place where a digit does.
pub record IsFirstToken (w token : List ℕ) : Type 0 where
  pub pre : List ℕ
  pub number : List ℕ
  pub post : List ℕ
  pub split : w ≡ pre ++ com_prefix ++ number ++ post
  pub is_token : token ≡ com_prefix ++ number
  pub some_digit : number ≢ []
  pub all_digits : AllDigits number
  pub maximal : starts_with_digit post ≡ false
  pub is_first :
      (p q : List ℕ) (c : ℕ)
      → w ≡ p ++ com_prefix ++ (c ∷ q)
      → is_digit c ≡ true
      → length pre ≤ length p

leading_digits_lem :
    (w : List ℕ)
    → (post : List ℕ) × (w ≡ leading_digits w ++ post)
      × AllDigits (leading_digits w)
      × (starts_with_digit post ≡ false)
unfolding leading_digits
leading_digits_lem [] = ([], refl, tt, refl)
leading_digits_lem (c ∷ cs) =
    let (post, e, a, m) = leading_digits_lem cs in
    if-cases
      (λ l. (post : List ℕ) × (c ∷ cs ≡ l ++ post) × AllDigits l × (starts_with_digit post ≡ false))
      (is_digit c) (λ h. (post, ap (◌∷◌ c) e, (h, a), m)) (λ h. (c ∷ cs, refl, tt, h))

abbrev at_token : List ℕ → Bool
at_token w = starts_with com_prefix w && starts_with_digit (drop 3 w)

at_token_lem :
    (w : List ℕ)
    → at_token w ≡ true
    → (c : ℕ) × (q : List ℕ) × (w ≡ com_prefix ++ (c ∷ q)) × (is_digit c ≡ true)
unfolding starts_with
at_token_lem [] h = cc
at_token_lem (a ∷ []) h = ground arith
at_token_lem (a ∷ b ∷ []) h = ground arith
at_token_lem (a ∷ b ∷ c ∷ []) h = ground arith
at_token_lem (a ∷ b ∷ c ∷ d ∷ q) h =
    let x : a ≡ 67 = ground arith in
    let y : b ≡ 79 = ground arith in
    let z : c ≡ 77 = ground arith in (d, q, rw (x, y, z) refl, ground arith)

com_prefix-at_token : (q : List ℕ) (c : ℕ) → at_token (com_prefix ++ (c ∷ q)) ≡ is_digit c
unfolding starts_with
com_prefix-at_token q c = refl

no_token_cons :
    (c : ℕ) (cs : List ℕ) → at_token (c ∷ cs) ≡ false → HasNoToken cs → HasNoToken (c ∷ cs)
no_token_cons c cs h n [] q d e = sym (com_prefix-at_token q d) ∙ sym (ap at_token e) ∙ h
no_token_cons c cs h n (x ∷ p) q d e = n p q d cc

-- A text that does not start with a token has its tokens later.
first_later :
    (c n : ℕ) (cs p q : List ℕ) (d : ℕ)
    → at_token (c ∷ cs) ≡ false
    → c ∷ cs ≡ p ++ com_prefix ++ (d ∷ q)
    → is_digit d ≡ true
    → ((p' : List ℕ) → cs ≡ p' ++ com_prefix ++ (d ∷ q) → n ≤ length p')
    → suc n ≤ length p
first_later c n cs [] q d h e g f =
    absurd
      (let k : is_digit d ≡ false = sym (com_prefix-at_token q d) ∙ sym (ap at_token e) ∙ h in cc)
first_later c n cs (x ∷ p) q d h e g f = let k = f p cc in omega (arith, k)

IsFirstToken-cons :
    (c : ℕ) (cs token : List ℕ)
    → at_token (c ∷ cs) ≡ false
    → IsFirstToken cs token
    → IsFirstToken (c ∷ cs) token
IsFirstToken-cons c cs token h t = record {
  pre = c ∷ t.pre;
  number = t.number;
  post = t.post;
  split = ap (◌∷◌ c) t.split;
  is_token = t.is_token;
  some_digit = t.some_digit;
  all_digits = t.all_digits;
  maximal = t.maximal;
  is_first =
      λ p q d e g. first_later c (length t.pre) cs p q d h e g (λ p' k. t.is_first p' q d k g);
}

leading_digits-empty : (c : ℕ) (q : List ℕ) → is_digit c ≡ true → leading_digits (c ∷ q) ≢ []
unfolding leading_digits
leading_digits-empty c q h e = ground arith

IsFirstToken-here :
    (w : List ℕ) → at_token w ≡ true → IsFirstToken w (com_prefix ++ leading_digits (drop 3 w))
IsFirstToken-here w h =
    let (c, q, e, g) = at_token_lem w h in
    let (post, k, a, m) = leading_digits_lem (c ∷ q) in
    rw e (record {
      pre = [];
      number = leading_digits (c ∷ q);
      post = post;
      split = ap (λ l. com_prefix ++ l) k;
      is_token = refl;
      some_digit = leading_digits-empty c q g;
      all_digits = a;
      maximal = m;
      is_first = λ p q d e g. omega arith;
    })

nil-HasNoToken : HasNoToken []
nil-HasNoToken [] q c e = cc
nil-HasNoToken (x ∷ p) q c e = cc

-- The token that is cut out of a text is the first "COM" that a digit follows, with all the digits
-- behind it; it is empty only where the text has no "COM" with a digit behind it.
com_token_lem : (w : List ℕ) → ((com_token w ≡ []) × HasNoToken w) ⊎ IsFirstToken w (com_token w)
unfolding com_token
com_token_lem [] = inl (refl, nil-HasNoToken)
com_token_lem (c ∷ cs) =
    if-cases (λ l. ((l ≡ []) × HasNoToken (c ∷ cs)) ⊎ IsFirstToken (c ∷ cs) l) (at_token (c ∷ cs))
      (λ h. inr (IsFirstToken-here (c ∷ cs) h))
      (λ h. elim (com_token_lem cs) [
        | inl (e, n) ↦ inl (e, no_token_cons c cs h n)
        | inr t ↦ inr (IsFirstToken-cons c cs _ h t)
      ])

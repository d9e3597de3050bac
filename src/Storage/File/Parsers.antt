-- ===== src/Storage/File/Parsers.antt =====
-- The steps that the loading functions of src/storage/segment.cpp are composed of, as parsers: a
-- result stays the same on longer input, and what it is known to satisfy.
use mathlib.Core.List.{append_assoc}
use coredb.Prelude.{
  ℕ, zero, suc, ◌≡◌, refl, subst, if◌then◌else◌, Bool, true, false, List, [], ◌∷◌, ◌++◌, Option,
  none, some, arith, Option-cases, inl, inr, ◌⊎◌, length,
}
use coredb.Util.Bytes.{split_at, split_at-append, read_raw}
use coredb.Storage.File
use coredb.Storage.File.{Result, ok, err, or_fail, check, FileError}
use coredb.Storage.File.Load.{then_read}

-- A parser whose results satisfy `P`, and which gives the same result on longer input and leaves
-- what was added.
pub record Parses {ℓ} {A : Type ℓ} (P : A → Type 0) (p : List ℕ → Result (A × List ℕ))
    : Type ℓ where
  pub ensures : (buf rest : List ℕ) (a : A) → p buf ≡ ok (a, rest) → P a
  pub extends :
      (buf rest more : List ℕ) (a : A)
      → p buf ≡ ok (a, rest)
      → p (buf ++ more) ≡ ok (a, rest ++ more)

-- The same of a reader.
pub record Reads {ℓ} {A : Type ℓ} (P : A → Type 0) (p : List ℕ → Option (A × List ℕ)) : Type ℓ where
  pub ensures : (buf rest : List ℕ) (a : A) → p buf ≡ some (a, rest) → P a
  pub extends :
      (buf rest more : List ℕ) (a : A)
      → p buf ≡ some (a, rest)
      → p (buf ++ more) ≡ some (a, rest ++ more)

pub Result-cases {ℓ} :
    {A : Type ℓ} (r : Result A) → ((e : FileError) × (r ≡ err e)) ⊎ ((a : A) × (r ≡ ok a))
Result-cases (ok a) = inr (a, refl)
Result-cases (err e) = inl (e, refl)

module _ {ℓ} {A B : Type ℓ} where
  bind_split :
      (r : Result (A × List ℕ)) (f : A × List ℕ → Result (B × List ℕ)) (b : B × List ℕ)
      → File.◌>>=◌ r f ≡ ok b
      → (a : A) × (after : List ℕ) × (r ≡ ok (a, after)) × (f (a, after) ≡ ok b)
  unfolding File.◌>>=◌
  bind_split (ok (a, after)) f b h = (a, after, refl, h)
  bind_split (err e) f b h = cc

  then_read_split :
      (r : Option (A × List ℕ)) (f : A → List ℕ → Option (B × List ℕ)) (b : B × List ℕ)
      → then_read r f ≡ some b
      → (a : A) × (after : List ℕ) × (r ≡ some (a, after)) × (f a after ≡ some b)
  then_read_split (some (a, after)) f b h = (a, after, refl, h)
  then_read_split none f b h = cc

module _ {ℓ} {A B : Type ℓ} {Q : A → Type 0} {P : B → Type 0} where
  pub bind-Parses :
      {m : List ℕ → Result (A × List ℕ)} (f : A × List ℕ → Result (B × List ℕ))
      → Parses Q m
      → ((a : A) → Q a → Parses P (λ buf. f (a, buf)))
      → Parses P (λ buf. File.◌>>=◌ (m buf) f)
  unfolding File.◌>>=◌
  bind-Parses {m} f hm hf = record {
    ensures = λ buf rest b h.
        let (a, after, first, second) = bind_split (m buf) f (b, rest) h in
        (hf a (hm.ensures buf after a first)).ensures after rest b second;
    extends = λ buf rest more b h.
        let (a, after, first, second) = bind_split (m buf) f (b, rest) h in
        rw (hm.extends buf after more a first)
          ((hf a (hm.ensures buf after a first)).extends after rest more b second);
  }

  pub then_read-Reads :
      {m : List ℕ → Option (A × List ℕ)} {f : A → List ℕ → Option (B × List ℕ)}
      → Reads Q m
      → ((a : A) → Q a → Reads P (f a))
      → Reads P (λ buf. then_read (m buf) f)
  then_read-Reads {m} {f} hm hf = record {
    ensures = λ buf rest b h.
        let (a, after, first, second) = then_read_split (m buf) f (b, rest) h in
        (hf a (hm.ensures buf after a first)).ensures after rest b second;
    extends = λ buf rest more b h.
        let (a, after, first, second) = then_read_split (m buf) f (b, rest) h in
        rw (hm.extends buf after more a first)
          ((hf a (hm.ensures buf after a first)).extends after rest more b second);
  }

-- A test that has been made before the input is read.
pub if-Parses {ℓ} :
    {A : Type ℓ} {P : A → Type 0} {p q : List ℕ → Result (A × List ℕ)} (b : Bool)
    → Parses P p
    → Parses P q
    → Parses P (λ buf. if b then p buf else q buf)
if-Parses true hp hq = hp
if-Parses false hp hq = hq

module _ {ℓ} {A : Type ℓ} where
  or_fail-ok :
      (e : FileError) (r : Option (A × List ℕ)) (a : A × List ℕ) → or_fail e r ≡ ok a → r ≡ some a
  unfolding or_fail
  or_fail-ok e (some b) a h = ground arith
  or_fail-ok e none a h = cc

module _ {ℓ} {A : Type ℓ} {P : A → Type 0} where
  pub check-Parses :
      (e : FileError) {b : Bool} {g : List ℕ → Result (A × List ℕ)}
      → (b ≡ true → Parses P g)
      → Parses P (λ buf. File.◌>>=◌ (check e b) (λ passed. g buf))
  unfolding File.◌>>=◌ check
  check-Parses e {b = true} hg = hg refl
  check-Parses e {b = false} hg = record {
    ensures = λ buf rest a h. cc;
    extends = λ buf rest more a h. cc;
  }

  pub or_fail-Parses :
      (e : FileError) {p : List ℕ → Option (A × List ℕ)}
      → Reads P p
      → Parses P (λ buf. or_fail e (p buf))
  unfolding or_fail
  or_fail-Parses e {p} hp = record {
    ensures = λ buf rest a h. hp.ensures buf rest a (or_fail-ok e (p buf) (a, rest) h);
    extends = λ buf rest more a h.
        rw (hp.extends buf rest more a (or_fail-ok e (p buf) (a, rest) h)) refl;
  }

  pub ok-Parses : {a : A} → P a → Parses P (λ buf. ok (a, buf))
  ok-Parses {a} h = record {
    ensures = λ buf rest b e. let same : a ≡ b = ground arith in subst P same h;
    extends = λ buf rest more b e. ground arith;
  }

  pub some-Reads : {a : A} → P a → Reads P (λ buf. some (a, buf))
  some-Reads {a} h = record {
    ensures = λ buf rest b e. let same : a ≡ b = ground arith in subst P same h;
    extends = λ buf rest more b e. ground arith;
  }

-- A value that has been worked out before the input is read, or an error.
pub known-Parses {ℓ} :
    {A B : Type ℓ} {P : B → Type 0} (e : FileError) (o : Option A)
    {g : A → List ℕ → Result (B × List ℕ)}
    → ((a : A) → o ≡ some a → Parses P (g a))
    → Parses P (λ buf. File.◌>>=◌ (or_fail e o) (λ a. g a buf))
unfolding File.◌>>=◌ or_fail
known-Parses e (some a) hg = hg a refl
known-Parses e none hg = record { ensures = λ buf rest b h. cc; extends = λ buf rest more b h. cc }

-- A reader of which nothing is to be known.
pub forget-Reads {ℓ} :
    {A : Type ℓ} {P : A → Type 0} {p : List ℕ → Option (A × List ℕ)}
    → Reads P p
    → Reads (λ a. Unit {0}) p
forget-Reads hp = record { ensures = λ buf rest a h. tt; extends = hp.extends }

-- What was split off, and that the parts make up the whole.
split_at-Sound :
    (n : ℕ) (buf rest a : List ℕ)
    → split_at n buf ≡ some (a, rest)
    → (length a ≡ n) × (buf ≡ a ++ rest)
unfolding split_at
split_at-Sound zero buf rest a h = ground arith
split_at-Sound (suc n) [] rest a h = cc
split_at-Sound (suc n) (x ∷ xs) rest a h = elim (Option-cases (split_at n xs)) [
  | inl short ↦ ground arith
  | inr ((b, after), done) ↦
      let (len, whole) = split_at-Sound n xs after b done in
      (ground (arith, len), ground (arith, whole))
]

pub split_at-Reads : (n : ℕ) → Reads (λ a. length a ≡ n) (split_at n)
split_at-Reads n = record {
  ensures = λ buf rest a h. (split_at-Sound n buf rest a h).0;
  extends = λ buf rest more a h.
      let (len, whole) = split_at-Sound n buf rest a h in
      rw (whole, append_assoc a rest more) (split_at-append a (rest ++ more) n len);
}

pub read_raw-Reads : (width : ℕ) → Reads (λ x. Unit {0}) (read_raw width)
unfolding read_raw
read_raw-Reads width = record {
  ensures = λ buf rest x h. tt;
  extends = λ buf rest more x h. elim (Option-cases (split_at width buf)) [
    | inl short ↦ ground arith
    | inr ((a, after), done) ↦ ground (arith, (split_at-Reads width).extends buf after more a done)
  ];
}

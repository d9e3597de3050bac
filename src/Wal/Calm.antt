-- ===== src/Wal/Calm.antt =====
-- `DecodeBody` of src/wal/record.cpp does not throw where memory can be had for as many values as 32
-- bits can count.
use native.Mathlib.Nat.{pow-suc}
use coredb.Prelude.{
  ◌^◌, ℕ, zero, suc, ◌+◌, ◌<◌, ◌≡◌, refl, Bool, true, false, List, [], ◌∷◌, Option, none, some,
  ◌==◌, if◌then◌else◌, length, All, arith, Option-cases, inl, inr, subst,
}
use coredb.Util.Bytes.{read_raw, from_le, split_at}
use coredb.Wal.WalRecordType
use coredb.Wal.Record.{has_row, read_values}
use coredb.Wal.Decode
use coredb.Wal.Decode.{Decoded, refused, decoded, or_refuse, reserve, decode_payload, decode_body}

abbrev pub AreBytes : List ℕ → Type 0
AreBytes = All (λ b. b < 256)

from_le_lt : (bytes : List ℕ) → AreBytes bytes → from_le bytes < 256 ^ length bytes
unfolding from_le
from_le_lt [] h = omega arith
from_le_lt (b ∷ bs) h = omega (arith, h.0, from_le_lt bs h.1, pow-suc 256 (length bs))

-- What is split off, and what is left.
pub record Parts (n : ℕ) (xs ys zs : List ℕ) : Type 0 where
  pub counted : n + length zs ≡ length xs
  pub taken : length ys ≡ n
  pub front : AreBytes ys
  pub back : AreBytes zs

pub split_at-Parts :
    (n : ℕ) (xs ys zs : List ℕ) → AreBytes xs → split_at n xs ≡ some (ys, zs) → Parts n xs ys zs
unfolding split_at
split_at-Parts zero xs [] zs b h =
    let same : xs ≡ zs = ground (arith, h) in
    record {
      counted = ground (arith, same);
      taken = refl;
      front = tt;
      back = subst AreBytes same b;
    }
split_at-Parts zero xs (y ∷ ys) zs b h = absurd (ground (arith, h))
split_at-Parts (suc n) [] ys zs b h = cc
split_at-Parts (suc n) (x ∷ xs) ys zs b h = elim (Option-cases (split_at n xs)) [
  | inl e ↦ absurd (ground (arith, e))
  | inr ((vs, ws), e) ↦
      let p = split_at-Parts n xs vs ws b.1 e in
      let whole : x ∷ vs ≡ ys = ground (arith, e) in
      let left : ws ≡ zs = ground (arith, e) in
      record {
        counted = ground (arith, left, p.counted);
        taken = ground (arith, whole, p.taken);
        front = subst AreBytes whole (b.0, p.front);
        back = subst AreBytes left p.back;
      }
]

read_raw-lt :
    (buf rest : List ℕ) (n : ℕ) → AreBytes buf → read_raw 4 buf ≡ some (n, rest) → n < 2 ^ 32
unfolding read_raw
read_raw-lt buf rest n b h = elim (Option-cases (split_at 4 buf)) [
  | inl short ↦ absurd (ground (arith, h, short))
  | inr ((ys, zs), e) ↦
      let p = split_at-Parts 4 buf ys zs b e in
      let value : from_le ys ≡ n = ground (arith, h, e) in
      let bound : from_le ys < 256 ^ 4 =
        subst (λ k. from_le ys < 256 ^ k) p.taken (from_le_lt ys p.front) in
      omega (arith, value, bound)
]

pub read_raw-back :
    (width : ℕ) (buf rest : List ℕ) (n : ℕ)
    → AreBytes buf
    → read_raw width buf ≡ some (n, rest)
    → AreBytes rest
unfolding read_raw
read_raw-back width buf rest n b h = elim (Option-cases (split_at width buf)) [
  | inl short ↦ absurd (ground (arith, h, short))
  | inr ((ys, zs), e) ↦
      let left : zs ≡ rest = ground (arith, h, e) in
      subst AreBytes left (split_at-Parts width buf ys zs b e).back
]

-- No exception has been thrown.
abbrev pub Calm {ℓ} : {A : Type ℓ} → Decoded A → Type 0
Calm refused = Unit
Calm Decoded.threw = ⊥
Calm (decoded a) = Unit

Calm-or_refuse {ℓ κ} :
    {A : Type ℓ} {B : Type κ} (o : Option A) (f : A → Decoded B)
    → ((a : A) → o ≡ some a → Calm (f a))
    → Calm (Decode.◌>>=◌ (or_refuse o) f)
unfolding or_refuse Decode.◌>>=◌
Calm-or_refuse none f h = tt
Calm-or_refuse (some a) f h = h a refl

Calm-bind {ℓ κ} :
    {A : Type ℓ} {B : Type κ} (o : Decoded A) (f : A → Decoded B)
    → Calm o
    → ((a : A) → Calm (f a))
    → Calm (Decode.◌>>=◌ o f)
unfolding Decode.◌>>=◌
Calm-bind refused f c h = tt
Calm-bind Decoded.threw f c h = absurd c
Calm-bind (decoded a) f c h = h a

Calm-if {ℓ} :
    {A : Type ℓ} (b : Bool) (x y : Decoded A) → Calm x → Calm y → Calm (if b then x else y)
Calm-if true x y h k = h
Calm-if false x y h k = k

module _ (grants : ℕ → Bool) (granted : (n : ℕ) → n < 2 ^ 32 → grants n ≡ true) where
  reserve-Calm : (n : ℕ) → n < 2 ^ 32 → Calm (reserve grants n)
  unfolding reserve
  reserve-Calm n h = rw (granted n h) tt

  decode_payload-Calm :
      (type : ℕ) (buf : List ℕ) → AreBytes buf → Calm (decode_payload grants type buf)
  unfolding decode_payload
  decode_payload-Calm type buf b =
      Calm-if (has_row type) _ _
        (Calm-or_refuse (read_raw 8 buf) _ λ row_id e.
          Calm-or_refuse (read_raw 4 row_id.1) _ λ num_values f.
            let after = read_raw-back 8 buf row_id.1 row_id.0 b e in
            Calm-bind (reserve grants num_values.0) _
              (reserve-Calm num_values.0 (read_raw-lt row_id.1 num_values.1 num_values.0 after f))
              λ reserved. Calm-or_refuse (read_values num_values.0 num_values.1) _ (λ values g. tt))
        (Calm-if (type == WalRecordType.delete) _ _
          (Calm-or_refuse (read_raw 8 buf) _ (λ row_id e. tt)) tt)

  pub decode_body-Calm : (body : List ℕ) → AreBytes body → Calm (decode_body grants body)
  unfolding decode_body
  decode_body-Calm body b = Calm-or_refuse (read_raw 8 body) _ λ lsn e.
      let b1 = read_raw-back 8 body lsn.1 lsn.0 b e in
      Calm-or_refuse (read_raw 8 lsn.1) _ λ txn_id f.
        let b2 = read_raw-back 8 lsn.1 txn_id.1 txn_id.0 b1 f in
        Calm-or_refuse (read_raw 1 txn_id.1) _ λ type g.
          Calm-bind (decode_payload grants type.0 type.1) _
            (decode_payload-Calm type.0 type.1 (read_raw-back 1 txn_id.1 type.1 type.0 b2 g))
            (λ payload. tt)

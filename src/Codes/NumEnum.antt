-- ===== src/Codes/NumEnum.antt =====
-- `#[derive(FromPrimitive, IntoPrimitive)]` with a `#[num_enum(catch_all)]` variant: a number goes
-- to the variant declared with it, and to the catch-all variant if there is none.
use mtp_rs.Prelude.{
  ℕ, ◌<◌, ◌^◌, ◌≡◌, List, [], ◌∷◌, ◌==◌, ==→eq, if◌then◌else◌, Bool-cases, inl, inr,
}

module _ {A : Type 0} (into : A → ℕ) (unknown : ℕ → A) where
  abbrev pub from_primitive : List A → ℕ → A
  from_primitive [] code = unknown code
  from_primitive (v ∷ vs) code = if into v == code then v else from_primitive vs code

  pub into-from_primitive :
      ((code : ℕ) → into (unknown code) ≡ code)
      → (vs : List A) (code : ℕ) → into (from_primitive vs code) ≡ code
  into-from_primitive h [] code = h code
  into-from_primitive h (v ∷ vs) code = elim (Bool-cases (into v == code)) [
    | inl e ↦ rw e (==→eq _ _ e)
    | inr e ↦ rw e (into-from_primitive h vs code)
  ]

-- A value that survives the wire: its number is a u16 and decodes to the value.
pub record IsCode {A : Type 0} (into : A → ℕ) (from : ℕ → A) (v : A) : Type 0 where
  pub in_range : into v < 2 ^ 16
  pub decodes : from (into v) ≡ v

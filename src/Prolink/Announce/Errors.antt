-- ===== src/Prolink/Announce/Errors.antt =====
-- Which packets the parsers of port 50000 accept, and what they answer to the others.
use player.Common.{
  ℕ, ◌≤◌, ◌<◌, ◌≡◌, ◌≢◌, refl, ap, ◌⊎◌, inl, inr, Bool, true, false, not, ◌||◌, List, leb, leb→le,
  arith, length, take, Bool-cases,
}
use player.Common.Text.{list_eq, list_eq→eq, list_eq_refl}
use player.Prolink.Packets.{
  magic, kind_offset, u8_at, is_foreign, check, ok, err, not_pro_dj_link, wrong_kind, too_short,
}

-- A packet carries the header: the magic bytes, and at least the kind behind them.
abbrev pub IsProDjLink : List ℕ → Type 0
IsProDjLink packet = (kind_offset < length packet) × (take (length magic) packet ≡ magic)

foreign_short : (a b : Bool) → a ≡ true → (a || not b) ≡ true
foreign_short a b e = ground arith

foreign_other : (a b : Bool) → b ≡ false → (a || not b) ≡ true
foreign_other a b e = ground arith

familiar : (a b : Bool) → a ≡ false → b ≡ true → (a || not b) ≡ false
familiar a b e f = ground arith

foreign_cases :
    (packet : List ℕ)
    → (IsProDjLink packet × (is_foreign packet ≡ false))
      ⊎ ((¬ IsProDjLink packet) × (is_foreign packet ≡ true))
unfolding is_foreign
foreign_cases packet = elim (Bool-cases (leb (length packet) kind_offset)) [
  | inl short ↦ inr (λ h. omega (arith, h.0, leb→le _ _ short), foreign_short _ _ short)
  | inr long ↦ elim (Bool-cases (list_eq (take (length magic) packet) magic)) [
    | inl same ↦ inl ((ground arith, list_eq→eq _ _ same), familiar _ _ long same)
    | inr other ↦ inr (
      λ h. cc (other, ap (λ l. list_eq l magic) h.1, list_eq_refl magic),
      foreign_other _ _ other,
    )
  ]
]

check_foreign :
    (packet : List ℕ) (kind needed : ℕ)
    → is_foreign packet ≡ true
    → check packet kind needed ≡ err not_pro_dj_link
unfolding check
check_foreign packet kind needed e = rw e refl

check_kind :
    (packet : List ℕ) (kind needed : ℕ)
    → is_foreign packet ≡ false
    → ((u8_at packet kind_offset ≢ kind)
        × (check packet kind needed ≡ err (wrong_kind kind (u8_at packet kind_offset))))
      ⊎ ((u8_at packet kind_offset ≡ kind)
          × (length packet < needed)
          × (check packet kind needed ≡ err (too_short needed (length packet))))
      ⊎ ((u8_at packet kind_offset ≡ kind)
          × (needed ≤ length packet)
          × (check packet kind needed ≡ ok tt))
unfolding check
check_kind packet kind needed e = ground arith

-- `check` accepts exactly the packets of its kind that are long enough for the fields, so that what
-- is read past it is in bounds; every other packet gets the first of the three errors that fits.
pub check_cases :
    (packet : List ℕ) (kind needed : ℕ)
    → ((¬ IsProDjLink packet) × (check packet kind needed ≡ err not_pro_dj_link))
      ⊎ (IsProDjLink packet
          × (u8_at packet kind_offset ≢ kind)
          × (check packet kind needed ≡ err (wrong_kind kind (u8_at packet kind_offset))))
      ⊎ (IsProDjLink packet
          × (u8_at packet kind_offset ≡ kind)
          × (length packet < needed)
          × (check packet kind needed ≡ err (too_short needed (length packet))))
      ⊎ (IsProDjLink packet
          × (u8_at packet kind_offset ≡ kind)
          × (needed ≤ length packet)
          × (check packet kind needed ≡ ok tt))
check_cases packet kind needed = elim (foreign_cases packet) [
  | inr (foreign, e) ↦ inl (foreign, check_foreign packet kind needed e)
  | inl (ours, e) ↦ elim (check_kind packet kind needed e) [
    | inl (other, r) ↦ inr (inl (ours, other, r))
    | inr (inl (same, short, r)) ↦ inr (inr (inl (ours, same, short, r)))
    | inr (inr (same, long, r)) ↦ inr (inr (inr (ours, same, long, r)))
  ]
]

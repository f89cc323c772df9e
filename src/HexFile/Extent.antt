-- ===== src/HexFile/Extent.antt =====
-- The two addresses that `read_hex_file` returns, for any file.
use mathlib.Core.Path.{subst}
use re_boot.Base.{
  ℕ, ◌+◌, ◌-◌, ◌%◌, ◌^◌, ◌≤◌, ◌≡◌, ◌≢◌, ◌⊎◌, inl, inr, refl, arith, ltb, leb, ◌==◌, if◌then◌else◌,
  true, false, ◌||◌, some, List, [], ◌∷◌, ◌++◌, length, drop, All, All-append, length-append,
  length-drop, Bool-cases, ltb→lt, ltb→le, ne→==,
}
use re_boot.Pipeline.{HexRecord}
use re_boot.HexFile.{
  Result, ok, overread, overrun, unopened, Reader, note, read_record, pieces, fill, is_record,
  read_lines, read_hex_file,
}
use re_boot.HexFile.Faults.{IsTaken, read_record-IsTaken, ok_injective}

-- Some element satisfies `P`.
abbrev pub Any : (HexRecord → Type 0) → List HexRecord → Type 0
Any P [] = ⊥
Any P (x ∷ xs) = P x ⊎ Any P xs

All-weaken :
    (P Q : HexRecord → Type 0) (xs : List HexRecord)
    → ((x : HexRecord) → P x → Q x)
    → All P xs
    → All Q xs
All-weaken P Q [] f h = tt
All-weaken P Q (x ∷ xs) f h = (f x h.0, All-weaken P Q xs f h.1)

Any-weaken :
    (P Q : HexRecord → Type 0) (xs : List HexRecord)
    → ((x : HexRecord) → P x → Q x)
    → Any P xs
    → Any Q xs
Any-weaken P Q [] f h = absurd h
Any-weaken P Q (x ∷ xs) f (inl h) = inl (f x h)
Any-weaken P Q (x ∷ xs) f (inr h) = inr (Any-weaken P Q xs f h)

Any-left : (P : HexRecord → Type 0) (xs ys : List HexRecord) → Any P xs → Any P (xs ++ ys)
Any-left P [] ys h = absurd h
Any-left P (x ∷ xs) ys (inl h) = inl h
Any-left P (x ∷ xs) ys (inr h) = inr (Any-left P xs ys h)

Any-last :
    (P : HexRecord → Type 0) (xs : List HexRecord) (y : HexRecord) → P y → Any P (xs ++ y ∷ [])
Any-last P [] y h = inl h
Any-last P (x ∷ xs) y h = inr (Any-last P xs y h)

-- A data record lies between the addresses.
abbrev pub Covers : ℕ → ℕ → HexRecord → Type 0
Covers low high rec = rec.kind ≡ 0 → (low ≤ rec.address) × ((rec.address + rec.len) % 2 ^ 32 ≤ high)

abbrev pub StartsAt : ℕ → HexRecord → Type 0
StartsAt low rec = (rec.kind ≡ 0) × (rec.address ≡ low)

-- All data records lie between the two addresses, and where there is one, the lower address is that of
-- a data record.
pub record IsExtent (r : Reader) : Type 0 where
  pub covered : All (Covers r.hex_base_address r.hex_end_address) r.records
  pub fresh : r.first ≡ true → All (λ (rec : HexRecord). rec.kind ≢ 0) r.records
  pub reached : r.first ≡ false → Any (StartsAt r.hex_base_address) r.records

weaker :
    (low high low' high' : ℕ) (rec : HexRecord)
    → low' ≤ low
    → high ≤ high'
    → Covers low high rec
    → Covers low' high' rec
weaker low high low' high' rec h k c e = let (a, b) = c e in (omega arith, omega arith)

vacuous : (low high : ℕ) (rec : HexRecord) → rec.kind ≢ 0 → Covers low high rec
vacuous low high rec h e = absurd (h e)

-- A record of another type changes nothing, ...
note_other :
    (kind len : ℕ) (rec : HexRecord) (r : Reader)
    → kind ≢ 0
    → rec.kind ≢ 0
    → IsExtent r
    → IsExtent (note kind len rec r)
unfolding note
note_other kind len rec r h k v = rw (ne→== kind 0 h) (record {
  covered =
      All-append (Covers r.hex_base_address r.hex_end_address) r.records (rec ∷ []) v.covered
        (vacuous _ _ rec k, tt);
  fresh = λ e. All-append (λ (x : HexRecord). x.kind ≢ 0) r.records (rec ∷ []) (v.fresh e) (k, tt);
  reached = λ e. Any-left (StartsAt r.hex_base_address) r.records (rec ∷ []) (v.reached e);
})

-- ... and a data record may move both.
note_data :
    (len : ℕ) (rec : HexRecord) (r : Reader)
    → rec.kind ≡ 0
    → rec.len ≡ len
    → IsExtent r
    → IsExtent (note 0 len rec r)
unfolding note
note_data len rec r k e v = elim (Bool-cases r.first) [
  | inl f ↦ rw f (record {
    covered =
        All-append (Covers rec.address high) r.records (rec ∷ [])
          (All-weaken (λ (x : HexRecord). x.kind ≢ 0) (Covers rec.address high) r.records
            (vacuous rec.address high) (v.fresh f))
          ((λ z. (omega arith, top)), tt);
    fresh = λ z. cc z;
    reached = λ z. Any-last (StartsAt rec.address) r.records rec (k, refl);
  })
  | inr f ↦ elim (Bool-cases (ltb rec.address r.hex_base_address)) [
    | inl l ↦
        rw (f, l)
          (record {
            covered =
                All-append (Covers rec.address high) r.records (rec ∷ [])
                  (lowered rec.address (omega (arith, ltb→lt rec.address r.hex_base_address l)))
                  ((λ z. (omega arith, top)), tt);
            fresh = λ z. cc z;
            reached = λ z. Any-last (StartsAt rec.address) r.records rec (k, refl);
          })
    | inr l ↦
        rw (f, l)
          (record {
            covered =
                All-append (Covers r.hex_base_address high) r.records (rec ∷ [])
                  (lowered r.hex_base_address (omega arith))
                  ((λ z. (ltb→le rec.address r.hex_base_address l, top)), tt);
            fresh = λ z. cc z;
            reached =
                λ z. Any-left (StartsAt r.hex_base_address) r.records (rec ∷ []) (v.reached f);
          })
  ]
]
  where
    high : ℕ
    high =
        if ltb r.hex_end_address ((rec.address + len) % 2 ^ 32)
        then (rec.address + len) % 2 ^ 32
        else r.hex_end_address

    highest : (r.hex_end_address ≤ high) × ((rec.address + len) % 2 ^ 32 ≤ high)
    highest = ground arith

    top : (rec.address + rec.len) % 2 ^ 32 ≤ high
    top = omega (arith, highest.1, e)

    lowered : (low : ℕ) → low ≤ r.hex_base_address → All (Covers low high) r.records
    lowered low h =
        All-weaken (Covers r.hex_base_address r.hex_end_address) (Covers low high) r.records
          (λ x. weaker r.hex_base_address r.hex_end_address low high x h highest.0) v.covered

taken-IsExtent : (r r' : Reader) → IsTaken r r' → IsExtent r → IsExtent r'
taken-IsExtent r r' t v = rw t.noted (by_kind t.kinds)
  where
    based : IsExtent (record r { base_address = t.base })
    based = record { covered = v.covered; fresh = v.fresh; reached = v.reached }

    by_kind :
        (t.kind ≡ 0) ⊎ ((t.kind ≢ 0) × (t.kind % 256 ≢ 0))
        → IsExtent (
            note t.kind t.len
              (record {
                address = (t.base + t.address) % 2 ^ 32;
                len = t.len % 256;
                bytes = t.bytes;
                kind = t.kind % 256;
                checksum = t.checksum % 256;
              })
              (record r { base_address = t.base }))
    by_kind (inl z) =
        rw z (
          note_data t.len _ (record r { base_address = t.base }) refl (omega (arith, t.short))
            based)
    by_kind (inr z) = note_other t.kind t.len _ (record r { base_address = t.base }) z.0 z.1 based

abbrev Fits : ℕ → List (List ℕ) → Type 0
Fits room [] = Unit
Fits room (p ∷ ps) = (length p ≤ room) × All (λ (q : List ℕ). length q ≤ 259) ps

Fits-all : (ps : List (List ℕ)) → Fits 259 ps → All (λ (q : List ℕ). length q ≤ 259) ps
Fits-all [] h = tt
Fits-all (p ∷ ps) h = h

-- No piece is longer than there is room for.
pieces-Fits : (room : ℕ) (file : List ℕ) → 1 ≤ room → room ≤ 259 → Fits room (pieces room file)
unfolding pieces
pieces-Fits room [] h k = tt
pieces-Fits room (c ∷ file) h k = elim (Bool-cases (c == b'\n' || leb room 1)) [
  | inl e ↦
      rw (e, pieces)
        (h, Fits-all (pieces 259 file) (pieces-Fits 259 file (omega arith) (omega arith)))
  | inr e ↦
      rw (e, pieces)
        (longer (pieces (room - 1) file) (pieces-Fits (room - 1) file (ground arith) (omega arith)))
]
  where
    longer :
        (ps : List (List ℕ))
        → Fits (room - 1) ps
        → Fits room (elim ps [ [] ↦ (c ∷ []) ∷ [] | piece ∷ more ↦ (c ∷ piece) ∷ more ])
    longer [] f = (h, tt)
    longer (p ∷ ps) f = (omega (arith, f.0), f.1)

length-fill :
    (piece line : List ℕ) → length line ≡ 260 → length piece ≤ 259 → length (fill piece line) ≡ 260
unfolding fill
length-fill piece line h k = omega (
  arith,
  length-append piece (0 ∷ drop (length piece + 1) line),
  length-drop (length piece + 1) line,
)

lines-IsExtent :
    (max_records : ℕ) (line : List ℕ) (ps : List (List ℕ)) (r r' : Reader)
    → length line ≡ 260
    → All (λ (q : List ℕ). length q ≤ 259) ps
    → IsExtent r
    → read_lines max_records line ps r ≡ ok r'
    → IsExtent r'
unfolding read_lines
lines-IsExtent max_records line [] r r' h f v e = subst IsExtent (ok_injective r r' e) v
lines-IsExtent max_records line (p ∷ ps) r r' h f v e =
    let further : (r1 : Reader)
        → IsExtent r1
        → read_lines max_records (fill p line) ps r1 ≡ ok r'
        → IsExtent r' =
      λ r1 v1 e1. lines-IsExtent max_records (fill p line) ps r1 r' sized f.1 v1 e1 in
    elim (Bool-cases (is_record (fill p line))) [
      | inl t ↦
          by_record further (read_record max_records (fill p line) r) refl (rw (t, read_lines) at e)
      | inr t ↦ further r v (rw (t, read_lines) at e)
    ]
  where
    sized : length (fill p line) ≡ 260
    sized = length-fill p line h f.0

    by_record :
        ((r1 : Reader)
          → IsExtent r1
          → read_lines max_records (fill p line) ps r1 ≡ ok r'
          → IsExtent r')
        → (m : Result Reader) → read_record max_records (fill p line) r ≡ m
        → elim m [
          | ok r1 ↦ read_lines max_records (fill p line) ps r1
          | overread ↦ overread
          | overrun ↦ overrun
          | unopened ↦ unopened
        ]
          ≡ ok r'
        → IsExtent r'
    by_record further (ok r1) t e1 =
        further r1
          (taken-IsExtent r r1 (read_record-IsTaken max_records (fill p line) r r1 sized t) v) e1
    by_record further overread t e1 = cc
    by_record further overrun t e1 = cc
    by_record further unopened t e1 = cc

-- Where a file is read to its end, with an array of 260 characters, all data records lie between the
-- two addresses that are returned, the lower of which is the address of a data record if there is one.
-- An address with a length that passes the end of the 32-bit space counts as the sum that wraps round.
pub read_hex_file-IsExtent :
    (max_records : ℕ) (line : List ℕ) (low high : ℕ) (file : List ℕ) (r : Reader)
    → length line ≡ 260
    → read_hex_file max_records line low high (some file) ≡ ok r
    → IsExtent r
unfolding read_hex_file
read_hex_file-IsExtent max_records line low high file r h e =
    lines-IsExtent max_records line (pieces 259 file) _ r h
      (Fits-all (pieces 259 file) (pieces-Fits 259 file (omega arith) (omega arith)))
      (record { covered = tt; fresh = λ z. tt; reached = λ z. cc z }) e

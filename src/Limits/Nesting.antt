-- ===== src/Limits/Nesting.antt =====
-- The scan of `_check_depth` against the nesting of a document.
use azd_santa.Base.{
  ℕ, suc, ◌+◌, ◌≤◌, Bool, true, false, ◌&&◌, ◌||◌, ◌≡◌, refl, ◌∙◌, List, [], ◌∷◌, max, arith,
}
use azd_santa.Base.{leb, ◌=?◌, Bool-cases, inl, inr}
use azd_santa.Base.Int.{ℤ, pos}
use azd_santa.Limits.Depth.{is_open, is_close, scan, check_depth}

-- a part of a quoted text: a character, or a backslash with the character behind it
pub data Piece : Type 0 where
  plain : (c : ℕ) → (c =? 34 || c =? 92) ≡ false → Piece
  escape : ℕ → Piece

-- Any text with balanced brackets: quoted texts, characters outside of them, lists and objects.
mutual
  pub data Doc : Type 0 where
    quoted : List Piece → Doc
    letter : (c : ℕ) → (c =? 34 || is_open c || is_close c) ≡ false → Doc
    list : Docs → Doc
    object : Docs → Doc

  pub data Docs : Type 0 where
    done : Docs
    next : Doc → Docs → Docs

pub write_pieces : List Piece → List ℕ → List ℕ
write_pieces [] rest = rest
write_pieces (plain c _ ∷ ps) rest = c ∷ write_pieces ps rest
write_pieces (escape c ∷ ps) rest = 92 ∷ c ∷ write_pieces ps rest

-- The document as text, in front of what follows.
unfoldable mutual
  unfolding write_pieces

  pub write : Doc → List ℕ → List ℕ
  write (quoted ps) rest = 34 ∷ write_pieces ps (34 ∷ rest)
  write (letter c _) rest = c ∷ rest
  write (list ds) rest = b'[' ∷ write_all ds (b']' ∷ rest)
  write (object ds) rest = b'{' ∷ write_all ds (b'}' ∷ rest)

  pub write_all : Docs → List ℕ → List ℕ
  write_all done rest = rest
  write_all (next d ds) rest = write d (write_all ds rest)

unfoldable mutual
  pub nesting : Doc → ℕ
  nesting (quoted ps) = 0
  nesting (letter c _) = 0
  nesting (list ds) = suc (nesting_all ds)
  nesting (object ds) = suc (nesting_all ds)

  pub nesting_all : Docs → ℕ
  nesting_all done = 0
  nesting_all (next d ds) = max (nesting d) (nesting_all ds)

module _ (maximum : ℕ) where
  scan-pieces :
      (ps : List Piece) (d : ℤ) (rest : List ℕ)
      → scan maximum d true false (write_pieces ps (34 ∷ rest)) ≡ scan maximum d false false rest
  unfolding scan write_pieces
  scan-pieces [] d rest = refl
  scan-pieces (plain c h ∷ ps) d rest = ground (arith, scan-pieces ps d rest)
  scan-pieces (escape c ∷ ps) d rest = scan-pieces ps d rest

  -- one bracket pair around a text that scans as its nesting says
  scan-open :
      (o d : ℕ) (text : List ℕ)
      → is_open o ≡ true
      → scan maximum (pos d) false false (o ∷ text)
        ≡ leb (suc d) maximum && scan maximum (pos (suc d)) false false text
  unfolding scan
  scan-open o d text h = ground arith

  scan-close :
      (c d : ℕ) (text : List ℕ)
      → is_close c ≡ true
      → scan maximum (pos (suc d)) false false (c ∷ text) ≡ scan maximum (pos d) false false text
  unfolding scan
  scan-close c d text h = ground arith

  scan-quote :
      (d : ℤ) (text : List ℕ)
      → scan maximum d false false (34 ∷ text) ≡ scan maximum d true false text
  unfolding scan
  scan-quote d text = refl

  scan-letter :
      (c : ℕ) (d : ℤ) (text : List ℕ)
      → (c =? 34 || is_open c || is_close c) ≡ false
      → scan maximum d false false (c ∷ text) ≡ scan maximum d false false text
  unfolding scan
  scan-letter c d text h = ground arith

  leb_at : (d : ℕ) (b : Bool) → d ≤ maximum → b ≡ (leb (d + 0) maximum && b)
  leb_at d b h = ground arith

  -- a bracket pair adds one to the nesting of what it holds
  scan-brackets :
      (o c d n : ℕ) (text rest : List ℕ)
      → is_open o ≡ true
      → is_close c ≡ true
      → (suc d ≤ maximum
          → scan maximum (pos (suc d)) false false text
            ≡ (leb (suc d + n) maximum && scan maximum (pos (suc d)) false false (c ∷ rest)))
      → scan maximum (pos d) false false (o ∷ text)
        ≡ (leb (d + suc n) maximum && scan maximum (pos d) false false rest)
  scan-brackets o c d n text rest ho hc inner = elim (Bool-cases (leb (suc d) maximum)) [
    | inl fits ↦
        let held = inner (ground arith) in ground (arith, scan-open o d text, scan-close c d rest)
    | inr full ↦ ground (arith, scan-open o d text)
  ]

  mutual
    unfolding write nesting

    scan-write :
        (t : Doc) (d : ℕ) (rest : List ℕ)
        → d ≤ maximum
        → scan maximum (pos d) false false (write t rest)
          ≡ leb (d + nesting t) maximum && scan maximum (pos d) false false rest
    scan-write (quoted ps) d rest h =
        scan-quote (pos d) _ ∙ scan-pieces ps (pos d) rest ∙ leb_at d _ h
    scan-write (letter c e) d rest h = scan-letter c (pos d) rest e ∙ leb_at d _ h
    scan-write (list ds) d rest h =
        scan-brackets b'[' b']' d (nesting_all ds) _ rest refl refl
          (scan-write_all ds (suc d) (b']' ∷ rest))
    scan-write (object ds) d rest h =
        scan-brackets b'{' b'}' d (nesting_all ds) _ rest refl refl
          (scan-write_all ds (suc d) (b'}' ∷ rest))

    scan-write_all :
        (ts : Docs) (d : ℕ) (rest : List ℕ)
        → d ≤ maximum
        → scan maximum (pos d) false false (write_all ts rest)
          ≡ leb (d + nesting_all ts) maximum && scan maximum (pos d) false false rest
    scan-write_all done d rest h = leb_at d _ h
    scan-write_all (next t ts) d rest h =
        ground (arith, scan-write t d (write_all ts rest), scan-write_all ts d rest)

  -- A balanced text passes exactly if it nests no deeper than the maximum, whatever brackets stand
  -- inside its quoted texts.
  pub check_depth-write :
      (t : Docs) → check_depth (write_all t []) maximum ≡ leb (nesting_all t) maximum
  unfolding check_depth scan
  check_depth-write t = ground (arith, scan-write_all t 0 [])

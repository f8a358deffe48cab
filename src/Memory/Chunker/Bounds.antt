-- ===== src/Memory/Chunker/Bounds.antt =====
-- What the chunks of a file cover (memory/semantic/chunker.go).
use vcos.Base.{
  ℕ, suc, ◌+◌, ◌-◌, ◌≤◌, ◌<◌, ◌≡◌, refl, sym, ap, subst, ◌∙◌, true, false, inl, inr, List, [], ◌∷◌,
  ◌++◌, arith, if◌then◌else◌, Bool-cases, leb, length, length-append, append_assoc, append-nil,
}
use vcos.Base.Text.{Text, runes, is_empty, trim_space, join}
use vcos.Base.Int.{ℤ, positive_or, positive_or_pos}
use vcos.Memory.Chunker.{
  Chunk, State, infer_lang, split_lines, flush, take_line, chunk_line, chunk_lines,
  default_max_lines, chunk,
}

-- The chunk is these lines, the first of which has the number after `before`.
pub record Holds (path lang : Text) (most before : ℕ) (body : List Text) (c : Chunk) : Type 0 where
  pub from_path : c.path ≡ path
  pub from_lang : c.lang ≡ lang
  pub starts : c.start ≡ before + 1
  pub ends : c.end ≡ before + length body
  pub some_lines : 0 < length body
  pub few_lines : length body ≤ most
  pub joined : c.text ≡ join body (runes "\n")

-- The lines, cut into the chunks and blank lines between them.
pub data Tiles (path lang : Text) (most : ℕ) : List Text → List Chunk → Type 0 where
  none_yet : Tiles path lang most [] []
  then_chunk :
      {lines body : List Text} {cs : List Chunk} {c : Chunk}
      → Tiles path lang most lines cs
      → Holds path lang most (length lines) body c
      → Tiles path lang most (lines ++ body) (cs ++ c ∷ [])
  then_blank :
      {lines : List Text} {cs : List Chunk} (line : Text)
      → Tiles path lang most lines cs
      → is_empty (trim_space line) ≡ true
      → Tiles path lang most (lines ++ line ∷ []) cs

module _ (path lang : Text) (most : ℕ) (some_room : 0 < most) where
  -- The lines so far are those of the chunks and those of the buffer.
  record Read (lines : List Text) (s : State) : Type 0 where
    done : List Text
    tiles : Tiles path lang most done s.chunks
    split : lines ≡ done ++ s.buf
    few : length s.buf ≤ most
    place : 0 < length s.buf → s.start ≡ length done + 1

  -- After a flush: nothing is in the buffer.
  flush-Tiles :
      (b lines : List Text) (s : State)
      → Read lines (record s { buf = b })
      → Tiles path lang most lines (flush path lang (length lines) (record s { buf = b })).chunks
        × ((flush path lang (length lines) (record s { buf = b })).buf ≡ [])
  flush-Tiles [] lines s h = (
    subst (λ l. Tiles path lang most l s.chunks) (sym (h.split ∙ append-nil h.done)) h.tiles,
    refl,
  )
  flush-Tiles (l ∷ b) lines s h = (
    rw h.split (
        then_chunk h.tiles (record {
          from_path = refl;
          from_lang = refl;
          starts = h.place (omega arith);
          ends = length-append h.done (l ∷ b);
          some_lines = omega arith;
          few_lines = h.few;
          joined = refl;
        })),
    refl,
  )

  -- A buffer that is empty takes a line.
  first_line-Read :
      (lines : List Text) (line : Text) (cs : List Chunk) (start : ℕ)
      → Tiles path lang most lines cs
      → Read (lines ++ line ∷ []) (
          take_line path lang
            (suc (length lines))
            line
            (record { chunks = cs; buf = []; start = start }))
  first_line-Read lines line cs start t = record {
    done = lines;
    tiles = t;
    split = refl;
    few = omega arith;
    place = λ _. omega arith;
  }

  chunk_line-Read :
      (b lines : List Text) (line : Text) (s : State)
      → Read lines (record s { buf = b })
      → Read
          (lines ++ line ∷ [])
          (chunk_line path lang most (suc (length lines)) line (record s { buf = b }))
  chunk_line-Read [] lines line s h =
      let room : leb most 0 ≡ false = ground arith in
      rw (room, if◌then◌else◌)
        (first_line-Read lines line s.chunks s.start (flush-Tiles [] lines s h).0)
  chunk_line-Read (l ∷ b) lines line s h =
      let last : suc (length lines) - 1 ≡ length lines = omega arith in
      let t = (flush-Tiles (l ∷ b) lines s h).0 in
      elim (Bool-cases (is_empty (trim_space line))) [
        | inl blank ↦
            rw (blank, if◌then◌else◌, last)
              (record {
                done = lines ++ line ∷ [];
                tiles = then_blank line t blank;
                split = sym (append-nil (lines ++ line ∷ []));
                few = omega arith;
                place = λ e. absurd (omega arith);
              })
        | inr full ↦ elim (Bool-cases (leb most (length (l ∷ b)))) [
          | inl many ↦
              rw (full, many, if◌then◌else◌, last)
                (first_line-Read lines line _ (suc (length lines)) t)
          | inr room ↦
              rw (full, room, if◌then◌else◌)
                (record {
                  done = h.done;
                  tiles = h.tiles;
                  split =
                      ap (λ x. x ++ line ∷ []) h.split ∙ append_assoc h.done (l ∷ b) (line ∷ []);
                  few = ground (arith, length-append (l ∷ b) (line ∷ []));
                  place = λ _. h.place (omega arith);
                })
        ]
      ]

  chunk_lines-Read :
      (rest lines : List Text) (s : State)
      → Read lines s
      → Read (lines ++ rest) (chunk_lines path lang most (suc (length lines)) rest s)
  chunk_lines-Read [] lines s h = rw (append-nil lines) h
  chunk_lines-Read (line ∷ rest) lines s h =
      let longer : length (lines ++ line ∷ []) ≡ suc (length lines) =
        omega (arith, length-append lines (line ∷ [])) in
      let h' = chunk_line-Read s.buf lines line s h in
      let rest' =
        chunk_lines-Read rest (lines ++ line ∷ [])
          (chunk_line path lang most (suc (length lines)) line s) h' in
      rw (longer, append_assoc lines (line ∷ []) rest) at rest'

-- The chunks of a file are its lines, cut: in order and without overlap, each chunk some lines but
-- no more than the limit, from the line numbers that it names and joined again; and a line that is
-- in no chunk is blank.
pub chunk-Tiles :
    (max_lines : ℤ) (path content : Text)
    → Tiles path
        (infer_lang path)
        (positive_or max_lines default_max_lines)
        (split_lines content)
        (chunk max_lines path content)
unfolding chunk
chunk-Tiles max_lines path content =
    let lang = infer_lang path in
    let most = positive_or max_lines default_max_lines in
    let lines = split_lines content in
    let some_room = positive_or_pos max_lines default_max_lines (omega arith) in
    let s₀ : State = record { chunks = []; buf = []; start = 1 } in
    let read = chunk_lines-Read path lang most some_room lines [] s₀ (record {
      done = [];
      tiles = none_yet;
      split = refl;
      few = omega arith;
      place = λ e. absurd (omega arith);
    }) in
    let s = chunk_lines path lang most 1 lines s₀ in
    (flush-Tiles path lang most some_room s.buf lines s read).0

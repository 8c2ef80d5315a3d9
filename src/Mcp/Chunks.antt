-- ===== src/Mcp/Chunks.antt =====
-- src/mcp-client.ts: how the chunks in which an event stream arrives bear on what is read from it.
use ad4m_link_language_tests.Prelude.{
  Text, ℕ, ◌≡◌, refl, sym, ap, ◌∙◌, none, some, inl, inr, List, [], ◌∷◌, ◌++◌, map, arith,
  Option-cases, append-nil, append_assoc,
}
use ad4m_link_language_tests.Prelude.Outcome.{Outcome}
use ad4m_link_language_tests.Mcp.{
  Parsed, Read, chunk, find_break, frames_of, scan, read_from, read_sse_for_id,
}
use ad4m_link_language_tests.Mcp.Frames.{frames-append, frames_of-terminates, frames_of-none}

unfoldable pub concat : List Text → Text
concat [] = []
concat (c ∷ cs) = c ++ concat cs

module _ {V : Type 0} (parse : Text → Parsed V) (id : ℕ) where
  scan-append :
      (fs gs : List Text)
      → scan parse id (fs ++ gs)
        ≡ elim (scan parse id fs) [ some o ↦ some o | none ↦ scan parse id gs ]
  unfolding scan
  scan-append [] gs = refl
  scan-append (f ∷ fs) gs = ground (arith, scan-append fs gs)

  read_scanned :
      (buf c : Text) (reads : List Read) (o : Outcome V)
      → scan parse id ((frames_of (buf ++ c)).0) ≡ some o
      → read_from parse id buf (chunk c ∷ reads) ≡ o
  unfolding read_from
  read_scanned buf c reads o h = ground (arith, h)

  read_on :
      (buf c : Text) (reads : List Read)
      → scan parse id ((frames_of (buf ++ c)).0) ≡ none
      → read_from parse id buf (chunk c ∷ reads)
        ≡ read_from parse id ((frames_of (buf ++ c)).1) reads
  unfolding read_from
  read_on buf c reads h = ground (arith, h)

  read_from-concat :
      (buf : Text) (cs : List Text) (reads : List Read)
      → find_break buf ≡ none
      → read_from parse id buf (map chunk cs ++ reads)
        ≡ read_from parse id buf (chunk (concat cs) ∷ reads)
  unfolding concat scan
  read_from-concat buf [] reads h =
      let cut : frames_of (buf ++ []) ≡ ([], buf) =
        ap frames_of (append-nil buf) ∙ frames_of-none buf h in
      sym (read_on buf [] reads (rw cut refl) ∙ (rw cut refl))
  read_from-concat buf (c ∷ cs) reads h =
      let first = frames_of (buf ++ c) in
      let all_cut =
        ap frames_of (sym (append_assoc buf c (concat cs)))
        ∙ frames-append (buf ++ c) (concat cs) in
      let scanned : scan parse id ((frames_of (buf ++ (c ++ concat cs))).0)
          ≡ elim (scan parse id (first.0)) [
            | some o ↦ some o
            | none ↦ scan parse id ((frames_of (first.1 ++ concat cs)).0)
          ] =
        rw all_cut (scan-append (first.0) ((frames_of (first.1 ++ concat cs)).0)) in
      let later = read_from-concat (first.1) cs reads ((frames_of-terminates (buf ++ c)).0) in
      elim (Option-cases (scan parse id (first.0))) [
        | inr (o, e) ↦
            read_scanned buf c (map chunk cs ++ reads) o e
            ∙ sym (read_scanned buf (c ++ concat cs) reads o (ground (arith, scanned, e)))
        | inl e ↦
            read_on buf c (map chunk cs ++ reads) e
            ∙ later
            ∙ elim (Option-cases (scan parse id ((frames_of (first.1 ++ concat cs)).0))) [
              | inr (o, f) ↦
                  read_scanned (first.1) (concat cs) reads o f
                  ∙ sym (read_scanned buf (c ++ concat cs) reads o (ground (arith, scanned, e, f)))
              | inl f ↦
                  read_on (first.1) (concat cs) reads f
                  ∙ sym (
                      read_on buf (c ++ concat cs) reads (ground (arith, scanned, e, f))
                      ∙ rw all_cut refl)
            ]
      ]

  -- What is read from an event stream does not depend on where the network cut it: chunks are read
  -- as their concatenation is when it arrives at once, whatever reads follow.
  pub read_sse_for_id-concat :
      (cs : List Text) (reads : List Read)
      → read_sse_for_id parse id (map chunk cs ++ reads)
        ≡ read_sse_for_id parse id (chunk (concat cs) ∷ reads)
  unfolding read_sse_for_id find_break
  read_sse_for_id-concat cs reads = read_from-concat [] cs reads refl

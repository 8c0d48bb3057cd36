-- ===== src/Toolbelt/Framing/Laws.antt =====
-- What the decoder yields does not depend on how the stream is cut, and undoes the encoder.
use mx_loom.Common.{
  ℕ, zero, suc, ◌<◌, ◌≡◌, refl, sym, ap, ◌∙◌, inl, inr, subst, true, false, concat, List, [], ◌∷◌,
  ◌++◌, length, take, drop, ltb, arith, Bool-cases, length-append, length-drop, take-append_of_le,
  drop-append_of_le,
}
use mathlib.Core.List.{append-nil, append_assoc}
use mx_loom.Text.{Text}
use mx_loom.Toolbelt.Framing.{
  Bytes, max_frame_bytes, Utf8, uint32_be, Pushed, decoded, oversized, out_of_fuel, prepend,
  prepend_all, and_then, frame_step, decode_loop, push, push_chunks,
}

module _ (utf8 : Utf8) where
  -- Fuel beyond the length of the buffer changes nothing.
  pub decode_loop-fuel :
      (f g : ℕ) (buf : Bytes)
      → length buf < f
      → length buf < g
      → decode_loop utf8 f buf ≡ decode_loop utf8 g buf
  unfolding decode_loop
  decode_loop-fuel zero g buf p q = absurd (omega arith)
  decode_loop-fuel (suc f) zero buf p q = absurd (omega arith)
  decode_loop-fuel (suc f) (suc g) [] p q = refl
  decode_loop-fuel (suc f) (suc g) (a ∷ []) p q = refl
  decode_loop-fuel (suc f) (suc g) (a ∷ b ∷ []) p q = refl
  decode_loop-fuel (suc f) (suc g) (a ∷ b ∷ c ∷ []) p q = refl
  decode_loop-fuel (suc f) (suc g) (a ∷ b ∷ c ∷ d ∷ body) p q =
      ap (frame_step utf8 (a ∷ b ∷ c ∷ d ∷ body) (uint32_be a b c d) body) (
        decode_loop-fuel f g (drop (uint32_be a b c d) body)
          (omega (arith, length-drop (uint32_be a b c d) body))
          (omega (arith, length-drop (uint32_be a b c d) body)))

  abbrev pub run : Bytes → Pushed
  run buf = decode_loop utf8 (suc (length buf)) buf

  -- A decoder that stopped, given more bytes.
  abbrev resume : Bytes → Pushed → Pushed
  resume c (decoded ps rest) = prepend_all ps (run (rest ++ c))
  resume c (oversized len buf) = oversized len (buf ++ c)
  resume c out_of_fuel = out_of_fuel

  prepend_all-nil : (r : Pushed) → prepend_all [] r ≡ r
  prepend_all-nil (decoded ps buf) = refl
  prepend_all-nil (oversized len buf) = refl
  prepend_all-nil out_of_fuel = refl

  prepend-prepend_all :
      (p : Text) (ps : List Text) (r : Pushed)
      → prepend p (prepend_all ps r) ≡ prepend_all (p ∷ ps) r
  prepend-prepend_all p ps (decoded qs buf) = refl
  prepend-prepend_all p ps (oversized len buf) = refl
  prepend-prepend_all p ps out_of_fuel = refl

  prepend-resume :
      (p : Text) (c : Bytes) (r : Pushed) → prepend p (resume c r) ≡ resume c (prepend p r)
  prepend-resume p c (decoded ps rest) = prepend-prepend_all p ps (run (rest ++ c))
  prepend-resume p c (oversized len buf) = refl
  prepend-resume p c out_of_fuel = refl

  -- A round on a frame that is whole, with more bytes behind it.
  pub whole_frame :
      (buf : Bytes) (len : ℕ) (body c : Bytes) (rest : Pushed)
      → ltb max_frame_bytes len ≡ false
      → ltb (length body) len ≡ false
      → frame_step utf8 buf len (body ++ c) rest ≡ prepend (utf8.decode (take len body)) rest
  whole_frame buf len body c rest small whole =
      let enough : ltb (length (body ++ c)) len ≡ false = ground (arith, length-append body c) in
      rw (small, enough)
        (ap (λ t. prepend (utf8.decode t) rest) (take-append_of_le len body c (ground arith)))

  -- The same round with nothing behind the frame.
  plain_frame :
      (buf : Bytes) (len : ℕ) (body : Bytes) (rest : Pushed)
      → ltb max_frame_bytes len ≡ false
      → ltb (length body) len ≡ false
      → frame_step utf8 buf len body rest ≡ prepend (utf8.decode (take len body)) rest
  plain_frame buf len body rest small whole = rw (small, whole)

  short_frame :
      (buf : Bytes) (len : ℕ) (body : Bytes) (rest : Pushed)
      → ltb max_frame_bytes len ≡ false
      → ltb (length body) len ≡ true
      → frame_step utf8 buf len body rest ≡ decoded [] buf
  short_frame buf len body rest small short = rw (small, short)

  big_frame :
      (buf : Bytes) (len : ℕ) (body : Bytes) (rest : Pushed)
      → ltb max_frame_bytes len ≡ true
      → frame_step utf8 buf len body rest ≡ oversized len buf
  big_frame buf len body rest big = rw big

  decode_loop-append :
      (f : ℕ) (buf c : Bytes) → length buf < f → run (buf ++ c) ≡ resume c (decode_loop utf8 f buf)
  unfolding decode_loop
  decode_loop-append zero buf c p = absurd (omega arith)
  decode_loop-append (suc f) [] c p = sym (prepend_all-nil (run c))
  decode_loop-append (suc f) (x ∷ []) c p = sym (prepend_all-nil (run (x ∷ c)))
  decode_loop-append (suc f) (x ∷ y ∷ []) c p = sym (prepend_all-nil (run (x ∷ y ∷ c)))
  decode_loop-append (suc f) (x ∷ y ∷ z ∷ []) c p = sym (prepend_all-nil (run (x ∷ y ∷ z ∷ c)))
  decode_loop-append (suc f) (x ∷ y ∷ z ∷ w ∷ body) c p =
      let buf : Bytes = x ∷ y ∷ z ∷ w ∷ body in
      let len = uint32_be x y z w in
      elim (Bool-cases (ltb max_frame_bytes len)) [
        | inl big ↦ rw big
        | inr small ↦ elim (Bool-cases (ltb (length body) len)) [
          | inl short ↦
              sym (prepend_all-nil (run (buf ++ c)))
              ∙ ap (resume c) (sym (short_frame buf len body _ small short))
          | inr whole ↦
              whole_frame (buf ++ c) len body c _ small whole
              ∙ ap (prepend (utf8.decode (take len body))) (
                  ap (decode_loop utf8 (length (buf ++ c)))
                    (drop-append_of_le len body c (ground arith))
                  ∙ decode_loop-fuel (length (buf ++ c)) (suc (length (drop len body ++ c)))
                      (drop len body ++ c)
                      (omega (
                        arith,
                        length-append (drop len body) c,
                        length-append body c,
                        length-drop len body,
                      ))
                      (omega arith)
                  ∙ decode_loop-append f (drop len body) c (omega (arith, length-drop len body)))
              ∙ prepend-resume (utf8.decode (take len body)) c (decode_loop utf8 f (drop len body))
              ∙ ap (resume c) (sym (plain_frame buf len body _ small whole))
        ]
      ]

  -- A decoder that stopped stops there again: the bytes that it holds contain no whole frame, or
  -- begin with the header that it refused.
  abbrev pub Settles : Pushed → Type 0
  Settles (decoded ps rest) = run rest ≡ decoded [] rest
  Settles (oversized len buf) = run buf ≡ oversized len buf
  Settles out_of_fuel = ⊥

  prepend-Settles : (p : Text) (r : Pushed) → Settles r → Settles (prepend p r)
  prepend-Settles p (decoded ps rest) h = h
  prepend-Settles p (oversized len buf) h = h
  prepend-Settles p out_of_fuel h = h

  decode_loop-Settles : (f : ℕ) (buf : Bytes) → length buf < f → Settles (decode_loop utf8 f buf)
  unfolding decode_loop
  decode_loop-Settles zero buf p = absurd (omega arith)
  decode_loop-Settles (suc f) [] p = refl
  decode_loop-Settles (suc f) (x ∷ []) p = refl
  decode_loop-Settles (suc f) (x ∷ y ∷ []) p = refl
  decode_loop-Settles (suc f) (x ∷ y ∷ z ∷ []) p = refl
  decode_loop-Settles (suc f) (x ∷ y ∷ z ∷ w ∷ body) p =
      let len = uint32_be x y z w in
      elim (Bool-cases (ltb max_frame_bytes len)) [
        | inl big ↦ rw big (big_frame _ len body _ big)
        | inr small ↦ elim (Bool-cases (ltb (length body) len)) [
          | inl short ↦ rw (small, short) (short_frame _ len body _ small short)
          | inr whole ↦
              rw (small, whole)
                (prepend-Settles _ _
                  (decode_loop-Settles f (drop len body) (omega (arith, length-drop len body))))
        ]
      ]

  pub push-append : (buf c d : Bytes) → push utf8 buf (c ++ d) ≡ resume d (push utf8 buf c)
  unfolding push
  push-append buf c d =
      ap run (sym (append_assoc buf c d)) ∙ decode_loop-append _ (buf ++ c) d (omega arith)

  -- What was returned on the way to a throw is what a part of the stream, from its start on, yields.
  abbrev pub Delivered : List Text → Bytes → Bytes → Type 0
  Delivered qs buf stream =
      (before : Bytes) × (after : Bytes) × (rest : Bytes) × (stream ≡ before ++ after)
      × (push utf8 buf before ≡ decoded qs rest)

  -- Of the payloads that the pushes of a stream returned and what the last of them left, and what one
  -- push of the stream leaves.
  abbrev pub Same : Bytes → Bytes → List Text → Pushed → Pushed → Type 0
  Same start stream qs (decoded ps buf) r = (ps ≡ []) × (r ≡ decoded qs buf)
  Same start stream qs (oversized len buf) r =
      ((buf' : Bytes) × (r ≡ oversized len buf')) × Delivered qs start stream
  Same start stream qs out_of_fuel r = ⊥

  Same-later :
      (buf c rest later : Bytes) (ps qs : List Text) (last r : Pushed)
      → push utf8 buf c ≡ decoded ps rest
      → Same rest later qs last r
      → Same buf (c ++ later) (ps ++ qs) last (prepend_all ps r)
  unfolding decode_loop push
  Same-later buf c rest later ps qs (decoded ns left) r first (none_left, h) =
      (none_left, ap (prepend_all ps) h)
  Same-later buf c rest later ps qs (oversized len left) r first
        ((left', h), (before, after, end, cut, yields)) =
      (
        (left', ap (prepend_all ps) h),
        (
          c ++ before,
          after,
          end,
          ap (λ l. c ++ l) cut ∙ sym (append_assoc c before after),
          push-append buf c before ∙ ap (resume before) first ∙ ap (prepend_all ps) yields,
        ),
      )
  Same-later buf c rest later ps qs out_of_fuel r first h = h

  Same-pushed :
      (buf c later : Bytes) (next : Bytes → List Text × Pushed) (r : Pushed)
      → run buf ≡ decoded [] buf
      → push utf8 buf c ≡ r
      → Settles r
      → ((rest : Bytes)
          → run rest ≡ decoded [] rest
          → Same rest later (next rest).0 (next rest).1 (run (rest ++ later)))
      → Same buf (c ++ later) (and_then r next).0 (and_then r next).1 (resume later r)
  unfolding push
  Same-pushed buf c later next (decoded ps rest) settled first h ih =
      Same-later buf c rest later ps (next rest).0 (next rest).1 _ first (ih rest h)
  Same-pushed buf c later next (oversized len left) settled first h ih =
      ((left ++ later, refl), ([], c ++ later, buf, refl, rw append-nil settled))
  Same-pushed buf c later next out_of_fuel settled first h ih = h

  push_chunks-Same :
      (buf : Bytes) (chunks : List Bytes)
      → run buf ≡ decoded [] buf
      → Same buf
          (concat chunks)
          (push_chunks utf8 buf chunks).0
          (push_chunks utf8 buf chunks).1
          (run (buf ++ concat chunks))
  unfolding push_chunks push
  push_chunks-Same buf [] h = (refl, rw append-nil h)
  push_chunks-Same buf (c ∷ cs) h =
      subst
        (Same buf (c ++ concat cs) (push_chunks utf8 buf (c ∷ cs)).0
          (push_chunks utf8 buf (c ∷ cs)).1)
        (sym (push-append buf c (concat cs)))
        (Same-pushed buf c (concat cs) (λ b. push_chunks utf8 b cs) (push utf8 buf c) h refl
          (decode_loop-Settles (suc (length (buf ++ c))) (buf ++ c) (omega arith))
          (λ rest k. push_chunks-Same rest cs k))

  -- However a stream is cut into chunks: if no push throws, the payloads that the pushes return and the
  -- bytes that are left are those of one push of the whole stream. If one throws, one push of the whole
  -- stream throws for the same length, and what was returned before is what the decoder yields on a
  -- part of the stream from its start on. The rounds never run out.
  pub chunks_irrelevant :
      (chunks : List Bytes)
      → Same []
          (concat chunks)
          (push_chunks utf8 [] chunks).0
          (push_chunks utf8 [] chunks).1
          (push utf8 [] (concat chunks))
  unfolding push decode_loop
  chunks_irrelevant chunks = push_chunks-Same [] chunks refl

  -- After a throw the decoder holds on to the length that it refused: every later chunk throws
  -- again, whatever its bytes.
  pub oversized-stays :
      (buf chunk later : Bytes) (len : ℕ) (kept : Bytes)
      → push utf8 buf chunk ≡ oversized len kept
      → push utf8 kept later ≡ oversized len (kept ++ later)
  unfolding push
  oversized-stays buf chunk later len kept h =
      let refused =
        decode_loop-Settles (suc (length (buf ++ chunk))) (buf ++ chunk) (omega arith) in
      let again : run kept ≡ oversized len kept = subst Settles h refused in
      decode_loop-append (suc (length kept)) kept later (omega arith) ∙ ap (resume later) again

-- ===== src/Toolbelt/Framing/RoundTrip.antt =====
-- The decoder undoes the encoder.
use mx_loom.Common.{
  ℕ, suc, ◌<◌, ◌≡◌, refl, sym, ap, ◌∙◌, ◌^◌, ◌/◌, ◌%◌, subst, false, Option, none, some, concat,
  All, List, [], ◌∷◌, ◌++◌, length, drop, ltb, arith, length-append, drop-append_of_le, take-length,
  drop-length,
}
use mx_loom.Text.{Text}
use mx_loom.Toolbelt.Framing.{
  Bytes, max_frame_bytes, Utf8, write_uint32_be, uint32_be, Pushed, decoded, oversized, out_of_fuel,
  prepend, encode_frame, frame_step, decode_loop, push, push_chunks, encode_all, joined,
  encode_frame, write_uint32_be, encode_all, joined,
}
use mx_loom.Toolbelt.Framing.Laws
use mx_loom.Toolbelt.Framing.Laws.{Same, decode_loop-fuel, whole_frame, chunks_irrelevant}

some_eq : (a b : Bytes) → some a ≡ some b → a ≡ b
some_eq a b h = cc

joined-some :
    (a b : Option Bytes) (s : Bytes)
    → joined a b ≡ some s
    → (frame : Bytes) × (rest : Bytes) × (a ≡ some frame) × (b ≡ some rest) × (frame ++ rest ≡ s)
joined-some (some frame) (some rest) s h = (frame, rest, refl, refl, some_eq (frame ++ rest) s h)
joined-some (some frame) none s h = cc
joined-some none b s h = cc

module _ (utf8 : Utf8) where
  abbrev run : Bytes → Pushed
  run buf = Laws.run utf8 buf

  read_written :
      (n : ℕ)
      → n < 2 ^ 32
      → uint32_be (n / 16777216 % 256) (n / 65536 % 256) (n / 256 % 256) (n % 256) ≡ n
  read_written n h = omega arith

  after_frame :
      (F : ℕ) (body s : Bytes)
      → length (body ++ s) < F
      → decode_loop utf8 F (drop (length body) (body ++ s)) ≡ run s
  after_frame F body s enough =
      let rest : drop (length body) (body ++ s) ≡ s =
        drop-append_of_le (length body) body s (omega arith)
        ∙ ap (λ t. t ++ s) (drop-length body) in
      ap (decode_loop utf8 F) rest
      ∙ decode_loop-fuel utf8 F (suc (length s)) s (omega (arith, length-append body s))
          (omega arith)

  framed :
      (buf : Bytes) (F len : ℕ) (body s : Bytes)
      → len ≡ length body
      → ltb max_frame_bytes (length body) ≡ false
      → length (body ++ s) < F
      → frame_step utf8 buf len (body ++ s) (decode_loop utf8 F (drop len (body ++ s)))
        ≡ prepend (utf8.decode body) (run s)
  framed buf F len body s is_len small enough = rw is_len (
      whole_frame utf8 buf (length body) body s _ small (ground arith)
      ∙ ap (λ t. prepend (utf8.decode t) (decode_loop utf8 F (drop (length body) (body ++ s))))
          (take-length body)
      ∙ ap (prepend (utf8.decode body)) (after_frame F body s enough))

  -- What a frame is, where the encoder does not throw.
  encoded :
      (p : Text) (frame : Bytes)
      → encode_frame utf8 p ≡ some frame
      → (ltb max_frame_bytes (length (utf8.encode p)) ≡ false)
        × (write_uint32_be (length (utf8.encode p)) ++ utf8.encode p ≡ frame)
  unfolding encode_frame
  encoded p frame h = ground arith

  written_frame :
      (p : Text) (s : Bytes)
      → ltb max_frame_bytes (length (utf8.encode p)) ≡ false
      → run ((write_uint32_be (length (utf8.encode p)) ++ utf8.encode p) ++ s)
        ≡ prepend (utf8.decode (utf8.encode p)) (run s)
  unfolding write_uint32_be decode_loop
  written_frame p s small =
      let n = length (utf8.encode p) in
      framed _ (suc (suc (suc (suc (length (utf8.encode p ++ s))))))
        (uint32_be (n / 16777216 % 256) (n / 65536 % 256) (n / 256 % 256) (n % 256)) (utf8.encode p)
        s (read_written n (ground arith)) small (omega arith)

  -- A frame in front of a stream is read whole.
  run-frame :
      (p : Text) (frame s : Bytes)
      → encode_frame utf8 p ≡ some frame
      → utf8.decode (utf8.encode p) ≡ p
      → run (frame ++ s) ≡ prepend p (run s)
  run-frame p frame s h e =
      let (small, same) = encoded p frame h in
      ap (λ t. run (t ++ s)) (sym same) ∙ written_frame p s small ∙ ap (λ t. prepend t (run s)) e

  -- The stream that the encoder writes is read back, payload by payload.
  encode_all-run :
      (ps : List Text) (stream : Bytes)
      → encode_all utf8 ps ≡ some stream
      → All (λ p. utf8.decode (utf8.encode p) ≡ p) ps
      → run stream ≡ decoded ps []
  unfolding encode_all
  encode_all-run [] stream h e =
      subst (λ t. run t ≡ decoded [] []) (some_eq [] stream h) (unfold decode_loop in refl)
  encode_all-run (p ∷ ps) stream h (e, es) =
      let (frame, rest, is_frame, is_rest, same) = joined-some _ _ stream h in
      ap run (sym same)
      ∙ run-frame p frame rest is_frame e
      ∙ ap (prepend p) (encode_all-run ps rest is_rest es)

  Same-decoded :
      (stream : Bytes) (qs : List Text) (last : Pushed) (ps : List Text) (buf : Bytes)
      → Same utf8 [] stream qs last (decoded ps buf)
      → (qs ≡ ps) × (last ≡ decoded [] buf)
  Same-decoded stream qs (decoded ns left) ps buf (none_left, h) =
      (cc, λ i. decoded (none_left i) (left_same h i))
    where
      left_same : decoded ps buf ≡ decoded qs left → left ≡ buf
      left_same e = cc
  Same-decoded stream qs (oversized len rest) ps buf ((buf', h), _) = absurd cc
  Same-decoded stream qs out_of_fuel ps buf h = absurd h

  -- Payloads that the encoder writes and that UTF-8 represents come out of the decoder as they went
  -- in, in order and with no byte left, however the stream between them is cut into chunks.
  pub frames_round_trip :
      (ps : List Text) (stream : Bytes) (chunks : List Bytes)
      → encode_all utf8 ps ≡ some stream
      → concat chunks ≡ stream
      → All (λ p. utf8.decode (utf8.encode p) ≡ p) ps
      → push_chunks utf8 [] chunks ≡ (ps, decoded [] [])
  unfolding push
  frames_round_trip ps stream chunks h cut e =
      let (payloads, end) =
        Same-decoded (concat chunks) (push_chunks utf8 [] chunks).0 (push_chunks utf8 [] chunks).1
          ps []
          (subst
            (Same utf8 [] (concat chunks) (push_chunks utf8 [] chunks).0
              (push_chunks utf8 [] chunks).1)
            (ap run cut ∙ encode_all-run ps stream h e) (chunks_irrelevant utf8 chunks)) in
      λ i. (payloads i, end i)

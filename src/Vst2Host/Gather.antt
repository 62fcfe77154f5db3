-- ===== src/Vst2Host/Gather.antt =====
-- The index arithmetic of `Vst2Host::process_block` (src/host/vst2/vst2-host.cpp) splits the samples
-- of a frame into its channels.
use mathlib.Core.List.{flatten}
use wasivst.Prelude.{
  ℕ, ◌+◌, ◌*◌, ◌%◌, ◌^◌, ◌≤◌, ◌≡◌, refl, List, [], ◌∷◌, ◌++◌, arith, append_assoc, length,
  length-append, All, some, get_elem?, get_elem?-append_length,
}
use wasivst.Serial.Frames.{HasLength}
use wasivst.Vst2Host.{gather, gather_channel}

gather_channel-append :
    (n c s : ℕ) (front xs back : List ℕ)
    → length front ≡ c * n + s
    → length front + length xs ≤ 2 ^ 32
    → gather_channel (front ++ (xs ++ back)) n c (length xs) s ≡ some xs
unfolding gather_channel
gather_channel-append n c s front [] back e h = refl
gather_channel-append n c s front (x ∷ xs) back e h =
    let at : (c * n + s) % 2 ^ 32 ≡ length front = omega arith in
    let rest = rw append_assoc at (
      gather_channel-append n c (s + 1) (front ++ x ∷ []) xs back
        (omega (arith, length-append front (x ∷ [])))
        (omega (arith, length-append front (x ∷ [])))) in
    let here : get_elem? (front ++ (x ∷ xs ++ back)) ((c * n + s) % 2 ^ 32) ≡ some x =
      rw at (get_elem?-append_length front x (xs ++ back)) in
    ground (arith, here, rest)

gather-append :
    (n c : ℕ) (front : List ℕ) (bufs : List (List ℕ))
    → All (HasLength n) bufs
    → length front ≡ c * n
    → length front + length bufs * n ≤ 2 ^ 32
    → gather (front ++ flatten bufs) n (length bufs) c ≡ some bufs
unfolding gather flatten
gather-append n c front [] h e fits = refl
gather-append n c front (b ∷ bs) (hb, hbs) e fits =
    let row =
      rw hb at (gather_channel-append n c 0 front b (flatten bs) (omega arith) (omega (arith))) in
    let rows = rw append_assoc at (
      gather-append n (c + 1) (front ++ b) bs hbs (omega (arith, length-append front b))
        (omega (arith, length-append front b))) in
    ground (arith, row, rows)

-- The samples of channels that all have `n` samples, at most 2 ^ 32 in all, one channel after the
-- other, are taken apart into these channels.
pub gather-flatten :
    (n : ℕ) (bufs : List (List ℕ))
    → All (HasLength n) bufs
    → length bufs * n ≤ 2 ^ 32
    → gather (flatten bufs) n (length bufs) 0 ≡ some bufs
gather-flatten n bufs h fits = gather-append n 0 [] bufs h (omega arith) (omega arith)

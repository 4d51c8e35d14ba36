-- ===== src/Display/Examples.antt =====
-- A small window (src/platform/sdl/context.rs). The texture is the list of what it was updated with.
use ferrum_vm.Prelude.{
  ℕ, ◌+◌, ◌≤◌, ◌≡◌, refl, false, some, List, [], ◌∷◌, if◌then◌else◌, arith, ok, debug,
}
use ferrum_vm.Virtio.Gpu.{DisplayRect}
use ferrum_vm.Display.{Sdl, FerrumSdlContext, blit, present, update_texture, copy_rows}
use ferrum_vm.Display.Rows.{picture}
use ferrum_vm.Display.Drawn.{clip, is_nothing, blit-eq-picture}

abbrev sdl : Sdl ℕ (List ℕ)
sdl = record {
  window = λ w h. some 0;
  create_texture = λ canvas w h. some [];
  clear = λ canvas. canvas;
  present = λ canvas. canvas + 1;
  set_size = λ canvas w h. some canvas;
  update = λ texture rect rows pitch. some rows;
  copy = λ canvas texture. some canvas;
}

abbrev window : FerrumSdlContext ℕ (List ℕ)
window = record { canvas = 0; texture = []; width = 2; height = 2; should_quit = false }

-- Its right half is outside of the window.
abbrev rect : DisplayRect
rect = record { x = 1; y = 0; width = 2; height = 2 }

-- Two rows of two pixels, the last byte of the second missing.
abbrev pixels : List ℕ
pixels = 1 ∷ 2 ∷ 3 ∷ 4 ∷ 5 ∷ 6 ∷ 7 ∷ 8 ∷ 9 ∷ 10 ∷ 11 ∷ 12 ∷ 13 ∷ 14 ∷ 15 ∷ []

blit-eq-picture_example :
    (blit sdl debug window pixels 8 rect
      ≡ ok (
          present sdl (
            if is_nothing (clip window rect)
            then window
            else update_texture sdl window (clip window rect) (picture pixels 8 1 0 8 0 2) 8)))
    × ((clip window rect).x + (clip window rect).width ≤ 2)
    × ((clip window rect).y + (clip window rect).height ≤ 2)
blit-eq-picture_example =
    blit-eq-picture sdl debug window pixels 8 rect (omega arith) (omega arith) (omega arith)
      (omega arith) (omega arith) (omega arith)

-- A row runs on into the next one of the source, and ends in blanks.
two_rows :
    copy_rows debug pixels 8 1 0 8 0 2
      (0 ∷ 0 ∷ 0 ∷ 0 ∷ 0 ∷ 0 ∷ 0 ∷ 0 ∷ 0 ∷ 0 ∷ 0 ∷ 0 ∷ 0 ∷ 0 ∷ 0 ∷ 0 ∷ [])
    ≡ ok (5 ∷ 6 ∷ 7 ∷ 8 ∷ 9 ∷ 10 ∷ 11 ∷ 12 ∷ 13 ∷ 14 ∷ 15 ∷ 0 ∷ 0 ∷ 0 ∷ 0 ∷ 0 ∷ [])
unfolding copy_rows
two_rows = refl

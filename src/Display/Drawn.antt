-- ===== src/Display/Drawn.antt =====
-- What a blit shows (src/platform/sdl/context.rs).
use ferrum_vm.Prelude.{
  ℕ, ◌+◌, ◌-◌, ◌*◌, ◌^◌, ◌≤◌, ◌<◌, ◌≡◌, refl, min, Bool, ◌||◌, List, [], ◌==◌, lt→ltb,
  if◌then◌else◌, arith, ok, Build, mul_word_exact, u64_mod, u32_mod,
}
use ferrum_vm.Virtio.Gpu.{DisplayRect}
use ferrum_vm.Display.{
  Rect, Sdl, FerrumSdlContext, zeroed, draw, update_texture, blit_rect, blit, present,
}
use ferrum_vm.Display.Rows.{zeros, picture, copy_rows-picture}

zeroed-zeros :
    (b : Build) (row_len h : ℕ)
    → row_len * h < 2 ^ 63
    → zeroed b row_len h ≡ ok (zeros (h * row_len))
unfolding zeroed
zeroed-zeros b row_len h small =
    let turned : row_len * h ≡ h * row_len = omega arith in
    rw
      (
        mul_word_exact b u64_mod row_len h (omega arith),
        lt→ltb (row_len * h) (2 ^ 63) small,
        turned,
      )
      refl

-- The part of the rectangle that is in the window.
unfoldable pub clip : {C T : Type 0} → FerrumSdlContext C T → DisplayRect → Rect
clip s rect = record {
  x = rect.x;
  y = rect.y;
  width = min rect.width (s.width - rect.x);
  height = min rect.height (s.height - rect.y);
}

abbrev pub is_nothing : Rect → Bool
is_nothing r = r.width == 0 || r.height == 0

-- Where the rectangle's last byte, as the source's rows are laid out, and its size stay below 2 ^ 63,
-- a blit returns in both builds. When a part of the rectangle is in the window it updates that part,
-- which lies in the window where the rectangle begins in it, with the reference picture, whose rows
-- have the source's bytes and blanks past its end; when no part is, nothing is drawn. In either case
-- the canvas is then presented.
pub blit-eq-picture :
    {C T : Type 0} (sdl : Sdl C T) (b : Build) (s : FerrumSdlContext C T) (src : List ℕ)
    (src_stride : ℕ) (rect : DisplayRect)
    → rect.width < u32_mod
    → rect.width * 4 * rect.height < 2 ^ 63
    → (rect.y + rect.height) * src_stride + rect.x * 4 < 2 ^ 63
    → rect.y + rect.height < 2 ^ 63
    → rect.x ≤ s.width
    → rect.y ≤ s.height
    → (blit sdl b s src src_stride rect
        ≡ ok (
            present sdl (
              if is_nothing (clip s rect)
              then s
              else update_texture sdl s
                  (clip s rect)
                  (picture src src_stride rect.x rect.y (rect.width * 4) 0 rect.height)
                  (rect.width * 4))))
      × ((clip s rect).x + (clip s rect).width ≤ s.width)
      × ((clip s rect).y + (clip s rect).height ≤ s.height)
unfolding blit blit_rect draw clip
blit-eq-picture sdl b s src src_stride rect narrow small inside low left top =
    let row_len : ℕ = rect.width * 4 in
    let start =
      copy_rows-picture b src src_stride rect.x rect.y row_len 0 rect.height [] (omega arith)
        (omega arith) (omega arith) (omega arith) in
    (
      rw
          (
            mul_word_exact b u64_mod rect.width 4 (omega arith),
            zeroed-zeros b row_len rect.height small,
            start,
          )
          refl,
      omega arith,
      omega arith,
    )

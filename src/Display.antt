-- ===== src/Display.antt =====
-- The window: src/platform/sdl/context.rs. SDL is the parameter `Sdl`; a call that fails is none, and
-- the messages that are printed then are left out. The canvas is a value of `C`, the texture of `T`.
use ferrum_vm.Prelude.{
  ℕ, zero, suc, ◌+◌, ◌-◌, ◌*◌, ◌^◌, min, Bool, true, false, ◌||◌, Option, none, some, List, [], ◌∷◌,
  ◌++◌, length, take, drop, replicate, ltb, leb, ◌==◌, if◌then◌else◌, Result, ok, panic, ◌>>=◌,
  Build, add_word, mul_word, u64_mod,
}
use ferrum_vm.Virtio.Gpu.{DisplayRect}
pub mod Rows
pub mod Drawn
mod Examples

-- `Rect::new(dst_x as i32, dst_y as i32, w, h)`; the first two stand for their bits.
pub record Rect : Type 0 where
  pub x : ℕ
  pub y : ℕ
  pub width : ℕ
  pub height : ℕ

pub record Sdl (C T : Type 0) : Type 0 where
  pub window : ℕ → ℕ → Option C
  pub create_texture : C → ℕ → ℕ → Option T
  pub clear : C → C
  pub present : C → C
  pub set_size : C → ℕ → ℕ → Option C
  pub update : T → Rect → List ℕ → ℕ → Option T
  pub copy : C → T → Option C

pub record FerrumSdlContext (C T : Type 0) : Type 0 where
  pub canvas : C
  pub texture : T
  pub width : ℕ
  pub height : ℕ
  pub should_quit : Bool

-- `event_pump.poll_event()`: a request to quit, or anything else.
pub data WindowEvent : Type 0 where
  quit other : WindowEvent

-- Where a row starts in the source.
unfoldable pub source_start : Build → ℕ → ℕ → ℕ → ℕ → Result ℕ
source_start b src_stride src_x src_y row = do
  y ← add_word b u64_mod src_y row
  line ← mul_word b u64_mod y src_stride
  column ← mul_word b u64_mod src_x 4
  add_word b u64_mod line column

-- `rows[dst_start..dst_start + len].copy_from_slice(piece)`.
unfoldable pub copy_row : List ℕ → ℕ → List ℕ → Result (List ℕ)
copy_row rows dst_start piece =
    if leb (dst_start + length piece) (length rows)
    then ok (take dst_start rows ++ (piece ++ drop (dst_start + length piece) rows))
    else panic

-- The loop over the rows, from `row` on with `left` to go.
unfoldable pub copy_rows : Build → List ℕ → ℕ → ℕ → ℕ → ℕ → ℕ → ℕ → List ℕ → Result (List ℕ)
unfolding source_start copy_row
copy_rows b src src_stride src_x src_y row_len row zero rows = ok rows
copy_rows b src src_stride src_x src_y row_len row (suc left) rows =
    let onward = copy_rows b src src_stride src_x src_y row_len (suc row) left in
    do
      src_start ← source_start b src_stride src_x src_y row
      if leb (length src) src_start then ok rows else (do
        let len = min row_len (length src - src_start)
        dst_start ← mul_word b u64_mod row row_len
        rows' ← copy_row rows dst_start (take len (drop src_start src))
        onward rows')

-- `vec![0u8; row_len * h as usize]`, which has at most `isize::MAX` bytes.
unfoldable pub zeroed : Build → ℕ → ℕ → Result (List ℕ)
zeroed b row_len h = do
  size ← mul_word b u64_mod row_len h
  if ltb size (2 ^ 63) then ok (replicate size 0) else panic

module _ {C T : Type 0} (sdl : Sdl C T) where
  -- `FerrumSDLContext::new`: none stands for the error that is returned.
  unfoldable pub new : ℕ → ℕ → Option (FerrumSdlContext C T)
  new width height = elim (sdl.window width height) [
    | none ↦ none
    | some canvas ↦
        let shown = sdl.present (sdl.clear canvas) in
        elim (sdl.create_texture shown width height) [
          | none ↦ none
          | some texture ↦ some (record {
            canvas = shown;
            texture = texture;
            width = width;
            height = height;
            should_quit = false;
          })
        ]
  ]

  -- The texture is updated and copied to the canvas.
  unfoldable pub update_texture : FerrumSdlContext C T → Rect → List ℕ → ℕ → FerrumSdlContext C T
  update_texture s rect rows row_len = elim (sdl.update s.texture rect rows row_len) [
    | none ↦ s
    | some texture ↦ elim (sdl.copy s.canvas texture) [
      | none ↦ record s { texture = texture }
      | some canvas ↦ record s { texture = texture; canvas = canvas }
    ]
  ]

  -- The part of `blit_rect` after the rows are copied; `-` on ℕ is `saturating_sub`.
  unfoldable pub draw : FerrumSdlContext C T → List ℕ → ℕ → ℕ → ℕ → ℕ → ℕ → FerrumSdlContext C T
  unfolding update_texture
  draw s rows row_len w h dst_x dst_y =
      let w' = min w (s.width - dst_x) in
      let h' = min h (s.height - dst_y) in
      if w' == 0 || h' == 0
      then s
      else update_texture s (record { x = dst_x; y = dst_y; width = w'; height = h' }) rows row_len

  unfoldable pub blit_rect :
      Build
      → FerrumSdlContext C T
      → List ℕ
      → ℕ
      → ℕ
      → ℕ
      → ℕ
      → ℕ
      → ℕ
      → ℕ
      → Result (FerrumSdlContext C T)
  unfolding copy_rows zeroed draw
  blit_rect b s src src_stride src_x src_y w h dst_x dst_y = do
    row_len ← mul_word b u64_mod w 4
    empty ← zeroed b row_len h
    rows ← copy_rows b src src_stride src_x src_y row_len 0 h empty
    ok (draw s rows row_len w h dst_x dst_y)

  unfoldable pub resize_display : FerrumSdlContext C T → ℕ → ℕ → Bool × FerrumSdlContext C T
  resize_display s width height = elim (sdl.set_size s.canvas width height) [
    | none ↦ (false, s)
    | some canvas ↦ elim (sdl.create_texture canvas width height) [
      | none ↦ (false, record s { canvas = canvas; width = width; height = height })
      | some texture ↦
          (true, record s { canvas = canvas; texture = texture; width = width; height = height })
    ]
  ]

  unfoldable pub get_display_size : FerrumSdlContext C T → ℕ × ℕ
  get_display_size s = (s.width, s.height)

  unfoldable pub present : FerrumSdlContext C T → FerrumSdlContext C T
  present s = record s { canvas = sdl.present s.canvas }

  unfoldable pub blit :
      Build → FerrumSdlContext C T → List ℕ → ℕ → DisplayRect → Result (FerrumSdlContext C T)
  unfolding blit_rect present
  blit b s src src_stride rect = do
    drawn ← blit_rect b s src src_stride rect.x rect.y rect.width rect.height rect.x rect.y
    ok (present drawn)

  -- `pump_events`, for the events that are waiting.
  unfoldable pub pump_events : List WindowEvent → FerrumSdlContext C T → Bool × FerrumSdlContext C T
  pump_events [] s = (s.should_quit, s)
  pump_events (quit ∷ es) s = pump_events es (record s { should_quit = true })
  pump_events (other ∷ es) s = pump_events es s

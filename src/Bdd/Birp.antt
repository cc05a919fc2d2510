-- ===== src/Bdd/Birp.antt =====
-- The transformations of `birp_to_birp` in hw1/src/birp.c, between the image that img_read_birp
-- reads and the call of img_write_birp. A result `none` is undefined behaviour.
pub mod Pictures
use cse_320_repository.Base.{
  ℕ, ◌+◌, ◌-◌, ◌*◌, ◌/◌, ◌%◌, ◌^◌, ◌==◌, Bool, true, false, ◌&&◌, ◌||◌, if◌then◌else◌, ltb, leb,
  none, some,
}
use cse_320_repository.Bdd.Store.{Node, node, Store, M, pure, fault, ◌>>=◌}
use cse_320_repository.Bdd.Raster.{special_level, pow2, bdd_min_level}
use cse_320_repository.Bdd.Transform.{bdd_map, bdd_zoom, bdd_rotate}

-- The node and the size given to img_write_birp, a return of -1, or one of 0 without a call.
pub data Outcome : Type 0 where
  img_write_birp : Node → (width height : ℕ) → Outcome
  refused : Outcome
  nothing_written : Outcome

abbrev pub bdd_levels_max : ℕ
bdd_levels_max = 32

-- The fields of `global_options`.
abbrev pub transformation_byte : ℕ → ℕ
transformation_byte global_options = global_options / 256 % 16

abbrev pub parameter_byte : ℕ → ℕ
parameter_byte global_options = global_options / 65536 % 256

unfoldable pub negate_operation : (pixel : ℕ) → ℕ
negate_operation pixel = 255 - pixel

unfoldable pub threshold_operation : (global_options pixel : ℕ) → ℕ
threshold_operation global_options pixel =
    if leb (parameter_byte global_options) pixel then 255 else 0

-- The node at a pointer, to be written with a size.
unfoldable pub write_at : (pointer width height : ℕ) → M Outcome
write_at pointer width height s = some (img_write_birp (s.nodes pointer) width height, s)

unfoldable pub negate_image : (root width height : ℕ) → M Outcome
negate_image root width height s =
    if (s.nodes root).level == special_level
    then some (
      img_write_birp (node special_level (255 - (s.nodes root).left) (255 - (s.nodes root).left))
          width height,
      s,
    )
    else (bdd_map root negate_operation >>= λ p. write_at p width height) s

-- The special node is a local variable of a block that has ended when it is written.
unfoldable pub threshold_image : (global_options root width height : ℕ) → M Outcome
threshold_image global_options root width height s =
    if (s.nodes root).level == special_level
    then none
    else (bdd_map root (threshold_operation global_options) >>= λ p. write_at p width height) s

-- A length times the scale, where it fits an `int`.
unfoldable pub scaled : (length scale : ℕ) → M ℕ
scaled length scale s = if ltb (length * scale) (2 ^ 31) then some (length * scale, s) else none

-- A length divided by the scale, rounded up.
unfoldable pub divided : (length scale : ℕ) → ℕ
divided length scale = if length % scale == 0 then length / scale else length / scale + 1

-- A factor that makes the level too high or negative.
unfoldable pub zoom_refused : (parameter level : ℕ) → Bool
zoom_refused parameter level =
    (leb parameter 16 && ltb bdd_levels_max (2 * parameter + level))
    || (ltb 16 parameter && ltb level (2 * (256 - parameter)))

-- The node is read after the size is computed, which changes nothing.
unfoldable pub zoom_image : (parameter root width height : ℕ) → M Outcome
zoom_image parameter root width height s =
    if zoom_refused parameter (bdd_min_level width height)
    then some (refused, s)
    else ((if (s.nodes root).level == special_level then pure root else bdd_zoom root parameter)
          >>= λ p.
              if leb parameter 16
              then (scaled width (pow2 parameter) >>= λ w.
                  scaled height (pow2 parameter) >>= λ h. write_at p w h)
              else write_at p (divided width (pow2 (256 - parameter)))
                  (divided height (pow2 (256 - parameter))))
        s

unfoldable pub rotate_image : (root width height : ℕ) → M Outcome
rotate_image root width height s =
    let level = bdd_min_level width height in
    let expanded = pow2 (level / 2) in
    if (s.nodes root).level == special_level
    then write_at root expanded expanded s
    else (bdd_rotate root level >>= λ p. write_at p expanded expanded) s

unfoldable pub birp_to_birp : (global_options root width height : ℕ) → M Outcome
birp_to_birp global_options root width height =
    let kind = transformation_byte global_options in
    if kind == 0
    then write_at root width height
    else if kind == 1
    then negate_image root width height
    else if kind == 2
    then threshold_image global_options root width height
    else if kind == 3
    then zoom_image (parameter_byte global_options) root width height
    else if kind == 4
    then rotate_image root width height
    else pure nothing_written

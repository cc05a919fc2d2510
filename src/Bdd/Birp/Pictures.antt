-- ===== src/Bdd/Birp/Pictures.antt =====
-- The images that `birp_to_birp` of hw1/src/birp.c writes.
use cse_320_repository.Base.{
  ℕ, ◌+◌, ◌*◌, ◌/◌, ◌^◌, ◌≤◌, ◌<◌, ◌≡◌, ◌≢◌, refl, false, if-true, some, arith, ==_ne, lt→ltb,
  le→leb, ge→ltb,
}
use cse_320_repository.Bdd.Store.{
  Store, M, Returns, Returns-bind, ◌>>=◌, bdd_num_leaves, bdd_nodes_max,
}
use cse_320_repository.Bdd.Lookup.Invariant.{IsTable}
use cse_320_repository.Bdd.Image.{pixel}
use cse_320_repository.Bdd.Build.{Picture}
use cse_320_repository.Bdd.Raster.{special_level, bdd_min_level}
use cse_320_repository.Bdd.Raster.Level.{pow2-pow}
use cse_320_repository.Bdd.Apply.{to_uchar}
use cse_320_repository.Bdd.Transform.{bdd_map, bdd_zoom}
use cse_320_repository.Bdd.Transform.Visit.{IsRedrawn}
use cse_320_repository.Bdd.Transform.Map.{bdd_map-IsRedrawn}
use cse_320_repository.Bdd.Transform.Zoom.{bdd_zoom-IsRedrawn}
use cse_320_repository.Bdd.Birp.{
  Outcome, img_write_birp, transformation_byte, parameter_byte, negate_operation, write_at,
  negate_image, zoom_image, zoom_refused, scaled, birp_to_birp,
}

-- The node written is a pointer's, and that draws the picture in a table that keeps the nodes.
pub record IsDrawnImage (l : ℕ) (picture : Picture) (width height : ℕ) (s : Store) (o : Outcome)
    (t : Store) : Type 0 where
  pub pointer : ℕ
  pub output : o ≡ img_write_birp (t.nodes pointer) width height
  pub redrawn : IsRedrawn l picture s pointer t

written :
    (l : ℕ) (picture : Picture) (width height : ℕ) (s : Store) (m : M ℕ)
    → Returns (IsRedrawn l picture s) (m s)
    → Returns (IsDrawnImage l picture width height s) ((m >>= λ p. write_at p width height) s)
unfolding write_at
written l picture width height s m r =
    Returns-bind _ m (λ p. write_at p width height) s r
      λ p t d. record {
        value = img_write_birp (t.nodes p) width height;
        store = t;
        ran = refl;
        holds = record { pointer = p; output = refl; redrawn = d };
      }

-- With the transformation byte 1, on an inner node in use of a well-formed table with 2 ^ level
-- free indices left, birp_to_birp hands img_write_birp a node for the image in which each pixel is
-- negated, at the same width and height, and keeps all nodes.
pub birp_to_birp-negated :
    (global_options root width height : ℕ) (s : Store)
    → transformation_byte global_options ≡ 1
    → IsTable s
    → bdd_num_leaves ≤ root
    → root < s.free_node_counter
    → (s.nodes root).level ≢ special_level
    → s.free_node_counter + 2 ^ (s.nodes root).level ≤ bdd_nodes_max
    → Returns
        (IsDrawnImage
          (s.nodes root).level
          (λ r c. to_uchar (negate_operation (pixel s.nodes (s.nodes root).level root r c)))
          width
          height
          s)
        (birp_to_birp global_options root width height s)
unfolding birp_to_birp negate_image
birp_to_birp-negated options root width height s kind v low used inner room =
    rw (kind, ==_ne (s.nodes root).level special_level inner)
      (written (s.nodes root).level _ width height s (bdd_map root negate_operation)
        (bdd_map-IsRedrawn negate_operation root s v low used room))

scaled-some :
    (n scale : ℕ) (s : Store) → n * scale < 2 ^ 31 → scaled n scale s ≡ some (n * scale, s)
unfolding scaled
scaled-some n scale s h =
    if-true (λ o. o ≡ some (n * scale, s)) _ _ (lt→ltb (n * scale) (2 ^ 31) h) refl

zoom_refused-false :
    (parameter level : ℕ)
    → parameter ≤ 16
    → 2 * parameter + level ≤ 32
    → zoom_refused parameter level ≡ false
unfolding zoom_refused
zoom_refused-false parameter level small fits =
    rw
      (le→leb parameter 16 small, ge→ltb 32 (2 * parameter + level) fits, ge→ltb 16 parameter small)
      refl

-- With the transformation byte 3 and a parameter of at most 16 for which the levels of the result
-- are at most 32, on a node in use of a level that the size covers, in a well-formed table with 2
-- ^ level free indices left, and with lengths that fit an int, birp_to_birp hands img_write_birp a
-- node for the enlarged image at the enlarged width and height, and keeps all nodes.
pub birp_to_birp-enlarged :
    (global_options root width height : ℕ) (s : Store)
    → transformation_byte global_options ≡ 3
    → parameter_byte global_options ≤ 16
    → 2 * parameter_byte global_options + bdd_min_level width height ≤ 32
    → (s.nodes root).level ≤ bdd_min_level width height
    → width * 2 ^ parameter_byte global_options < 2 ^ 31
    → height * 2 ^ parameter_byte global_options < 2 ^ 31
    → IsTable s
    → bdd_num_leaves ≤ root
    → root < s.free_node_counter
    → s.free_node_counter + 2 ^ (s.nodes root).level ≤ bdd_nodes_max
    → Returns
        (IsDrawnImage
          ((s.nodes root).level + 2 * parameter_byte global_options)
          (λ r c.
            pixel s.nodes
              (s.nodes root).level
              root
              (r / 2 ^ parameter_byte global_options)
              (c / 2 ^ parameter_byte global_options))
          (width * 2 ^ parameter_byte global_options)
          (height * 2 ^ parameter_byte global_options)
          s)
        (birp_to_birp global_options root width height s)
unfolding birp_to_birp zoom_image write_at
birp_to_birp-enlarged options root width height s kind small fits level wide high v low used room =
    let k = parameter_byte options in
    let inner : (s.nodes root).level ≢ 69 = λ e. omega (arith, e, level, fits) in
    rw
      (
        kind,
        zoom_refused-false k (bdd_min_level width height) small fits,
        ==_ne (s.nodes root).level 69 inner,
      )
      (Returns-bind _ (bdd_zoom root k) _ s
        (bdd_zoom-IsRedrawn k root s v small low used (omega (arith, level, fits)) room)
        λ p t d. record {
          value = img_write_birp (t.nodes p) (width * 2 ^ k) (height * 2 ^ k);
          store = t;
          ran =
              rw
                (
                  le→leb k 16 small,
                  pow2-pow k,
                  scaled-some width (2 ^ k) t wide,
                  ◌>>=◌,
                  pow2-pow k,
                  scaled-some height (2 ^ k) t high,
                )
                refl;
          holds = record { pointer = p; output = refl; redrawn = d };
        })

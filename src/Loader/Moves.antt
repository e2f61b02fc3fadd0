-- ===== src/Loader/Moves.antt =====
-- The moves of a loader.
use af_xdp_reimpl.Prelude.{ℕ, ◌+◌, ◌≡◌, arith}
use af_xdp_reimpl.Os.{Os, History}
use af_xdp_reimpl.Os.Tidy.{Resource, opened, closed}
use af_xdp_reimpl.Loader.{XdpLoader, release, emptied, move_assign}
use af_xdp_reimpl.Loader.Owns.{loader_owns, release_once}

module _ (os : Os) (f : Resource → ℕ) where
  -- After an assignment by move, the destructors of both loaders have made one call to undo each
  -- thing that either of them owned, and none for anything else.
  pub move_assign-release_loader :
      (l o : XdpLoader) (h : History)
      → let (loaders, h1) = move_assign os l o h in
        let h3 = (release os loaders.1 (release os loaders.0 h1).1).1 in
        (closed f h3 ≡ closed f h + loader_owns f l + loader_owns f o) × (opened f h3 ≡ opened f h)
  unfolding move_assign
  move_assign-release_loader l o h =
      let h1 = (release os l h).1 in
      let h2 = (release os o h1).1 in
      let first = release_once os f l h in
      let second = release_once os f o h1 in
      let third = release_once os f (emptied o) h2 in
      (omega (arith, first.1, second.1, third.1), omega (arith, first.0, second.0, third.0))

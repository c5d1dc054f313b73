-- ===== src/Stream/Examples.antt =====
-- Two streams, compared.
use verm.Prelude.{codes, some, ◌≡◌}
use verm.Stream.{whole, same_contents}
use verm.Stream.Compare.{same_spec, same_contents_lem}

same_contents_lem_example :
    same_contents (whole (codes "abc")) (whole (codes "abd"))
    ≡ some (same_spec (whole (codes "abc")) (whole (codes "abd")))
same_contents_lem_example = same_contents_lem (whole (codes "abc")) (whole (codes "abd"))

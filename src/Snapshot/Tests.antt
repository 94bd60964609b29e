-- ===== src/Snapshot/Tests.antt =====
-- An example: three documents of 100 bytes and a budget of 500.
use cubesync.Prelude.{ℕ, ◌≡◌, refl, true, some, List, [], ◌∷◌}
use cubesync.Snapshot.{trim_loop, trim_by_bytes}
use cubesync.Snapshot.Page.{Prefix, trim_by_bytes-Prefix}

abbrev ids : List ℕ
ids = 5 ∷ 6 ∷ 7 ∷ []

two_fit : trim_by_bytes (λ raw. 100) (λ e. some e) ids 500 ≡ (5 ∷ 6 ∷ [], true)
unfolding trim_by_bytes trim_loop
two_fit = refl

trim_by_bytes-Prefix_example :
    let kept = trim_by_bytes (λ raw. 100) (λ e. some e) ids 500 in Prefix ids kept.0 kept.1
trim_by_bytes-Prefix_example =
    trim_by_bytes-Prefix (λ raw. 100) (λ e. some e) 500 ids (λ e. (e, refl))

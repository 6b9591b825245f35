-- ===== src/Types/Units.antt =====
-- memflow/src/types/mem_units.rs for `umem` and `usize`: products wrap, as in a release build.
use memflow.Prelude.{ℕ, ◌*◌, ◌/◌, ◌%◌, ◌^◌}

unfoldable pub kb : ℕ → ℕ
kb n = n * 1024 % 2 ^ 64

unfoldable pub kib : ℕ → ℕ
unfolding kb
kib n = kb n / 8

unfoldable pub mb : ℕ → ℕ
unfolding kb
mb n = kb n * 1024 % 2 ^ 64

unfoldable pub mib : ℕ → ℕ
unfolding mb
mib n = mb n / 8

unfoldable pub gb : ℕ → ℕ
unfolding mb
gb n = mb n * 1024 % 2 ^ 64

unfoldable pub gib : ℕ → ℕ
unfolding gb
gib n = gb n / 8

-- ===== src/Auth/Permission.antt =====
-- `check_permission` of src/auth.c.
use cileserver.Base.{ℕ, ◌≤◌, ◌<◌, ◌≡◌, true, false, arith}
use cileserver.Auth.{check_permission, role_admin}

-- Within the enum, a higher role may do all that a lower one may.
pub check_permission_mono :
    (low high operation : ℕ)
    → low ≤ high
    → high ≤ role_admin
    → check_permission low operation ≡ true
    → check_permission high operation ≡ true
unfolding check_permission
check_permission_mono low high operation h k p = ground arith

-- A role that is not in the enum, as an edited user file may hold, permits nothing.
check_permission_unknown :
    (role operation : ℕ) → role_admin < role → check_permission role operation ≡ false
unfolding check_permission
check_permission_unknown role operation h = ground arith

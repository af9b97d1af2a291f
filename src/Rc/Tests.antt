-- ===== src/Rc/Tests.antt =====
-- Tests of the return codes.
use oceanbase.Base.{◌≡◌, refl}
use oceanbase.Rc.{code, record_eof}

code-record_eof : code record_eof ≡ 0x0d05
unfolding code
code-record_eof = refl

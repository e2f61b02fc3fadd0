-- ===== src/Os/Troubles.antt =====
-- What goes wrong in the calls of a run, from the attachment of the XDP program on.
use af_xdp_reimpl.Prelude.{ℕ, suc, [], ◌∷◌, ◌||◌, ◌==◌, if◌then◌else◌}
use af_xdp_reimpl.Os.{Call, History, failed, gave}

-- How many calls have gone wrong since the program was last attached: a query of the kernel's
-- counters that failed or returned neither 24 nor 48 bytes, a failed deletion of the redirection,
-- unless there was none to delete (ENOENT), a failed detachment, and a failed call on a file.
abbrev pub troubles : History → ℕ
troubles [] = 0
troubles ((Call.xdp_attach ifindex prog_fd native, gave x) ∷ h) = 0
troubles ((Call.xdp_statistics fd, failed e) ∷ h) = suc (troubles h)
troubles ((Call.xdp_statistics fd, gave bytes) ∷ h) =
    if bytes == 24 || bytes == 48 then troubles h else suc (troubles h)
troubles ((Call.redirect_delete map_fd queue, failed e) ∷ h) =
    if e == 2 then troubles h else suc (troubles h)
troubles ((Call.xdp_detach ifindex native, failed e) ∷ h) = suc (troubles h)
troubles ((Call.fopen path, failed e) ∷ h) = suc (troubles h)
troubles ((Call.fprintf stream text, failed e) ∷ h) = suc (troubles h)
troubles ((Call.fclose stream, failed e) ∷ h) = suc (troubles h)
troubles ((c, a) ∷ h) = troubles h

-- ===== src/Tests/TransmitterTests.antt =====
-- The transmitter at work: a send that is staged, a pass over the completion ring, and a
-- publication with a wakeup.
use af_xdp_reimpl.Prelude.{◌≡◌, refl, [], ◌⊎◌}
use af_xdp_reimpl.Ring.{readable_range}
use af_xdp_reimpl.Transmitter.{send_in_place, reclaim_completed_frames, drain_until, publish_staged}
use af_xdp_reimpl.Transmitter.Reclaim.{Reclaimed, reclaim_completed_frames_lem}
use af_xdp_reimpl.Transmitter.Send.{Accepted, Refused, send_in_place_lem}
use af_xdp_reimpl.Transmitter.Publish.{Published, publish_staged_lem}
use af_xdp_reimpl.Transmitter.Drain.{Drained, drain_until_lem}
use af_xdp_reimpl.Tests.Worker.{held, sizes, ledger, kernel, kernel-Obeys, working, working-Inv}

reclaims_one : (reclaim_completed_frames kernel 4 working).0 ≡ 1
unfolding reclaim_completed_frames readable_range
reclaims_one = refl

reclaim_completed_frames_lem_example :
    Reclaimed held sizes ledger kernel 4 working (reclaim_completed_frames kernel 4 working)
reclaim_completed_frames_lem_example =
    reclaim_completed_frames_lem held sizes ledger kernel kernel-Obeys 4 working working-Inv

send_in_place_lem_example :
    let out = send_in_place kernel 6400 60 working in
    Accepted held sizes ledger 6400 60 [] working out
    ⊎ Refused held sizes ledger 6400 60 [] working out
send_in_place_lem_example =
    send_in_place_lem held sizes ledger 6400 60 [] kernel kernel-Obeys refl working working-Inv

publish_staged_lem_example : Published held sizes ledger working (publish_staged working)
publish_staged_lem_example = publish_staged_lem held sizes ledger working working-Inv

drain_until_lem_example : Drained held sizes ledger working (drain_until kernel 3 working)
drain_until_lem_example =
    drain_until_lem held sizes ledger kernel kernel-Obeys 3 working working-Inv

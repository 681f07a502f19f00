-- ===== src/Runner/Stream/Whole.antt =====
-- internal/runner/stream.go: the verdict on the whole output, however it comes.
use mutation_judge.Base.{
  ◌≡◌, refl, sym, ap, ◌∙◌, Bool, false, List, [], map, Option, Text, arith, All,
}
use mutation_judge.Runner.{TestEvent, member, failed_pkg_tests, classify_events}
use mutation_judge.Runner.Twin.{IsClean}
use mutation_judge.Runner.Stream.{Stream, new_stream, write, finish, classify, name_of}
use mutation_judge.Runner.Stream.Chunks.{write_all, joined, write_all-joined}
use mutation_judge.Runner.Stream.Lines.{
  text_of_lines, IsLine, events_in, read_lines, read_lines-scan_events, write-text_of_lines,
}
use mutation_judge.Runner.Stream.Observed.{scan_of, classify-scan}

module _ (is_summary is_timeout : Text → Bool) (decode : Text → Option TestEvent) where
  finish-incomplete : (s : Stream) → (finish s).incomplete ≡ false → s.incomplete ≡ false
  unfolding finish
  finish-incomplete s h = ground (arith, h)

  finish-scan_of : (s : Stream) (last : List Text) → scan_of s last ≡ scan_of (finish s) last
  unfolding finish
  finish-scan_of s last = refl

  -- However the lines of the output are cut into calls of Write, if the stream has met no limit and no
  -- line that is not decoded, then its verdict is that of classifyEvents for the events of the lines, and
  -- its tests are the names of those of failedPkgTests, where no zero byte stands in the path of a package.
  pub classify-write_all :
      (ps ls : List Text)
      → joined ps ≡ text_of_lines ls
      → All IsLine ls
      → All IsClean (events_in decode ls)
      → (finish (write_all is_summary is_timeout decode new_stream ps)).incomplete ≡ false
      → ((classify (finish (write_all is_summary is_timeout decode new_stream ps))).0
          ≡ (classify_events is_summary (events_in decode ls)).0)
        × ((t : Text)
            → member t (classify (finish (write_all is_summary is_timeout decode new_stream ps))).1
              ≡ member t (map name_of (failed_pkg_tests (events_in decode ls))))
  classify-write_all ps ls whole lines clean h =
      let s = write_all is_summary is_timeout decode new_stream ps in
      let r = read_lines is_summary is_timeout decode new_stream ls in
      let read : s ≡ r =
        (write_all-joined is_summary is_timeout decode new_stream ps (omega arith)).0
        ∙ (ap (write is_summary is_timeout decode new_stream) whole
            ∙ write-text_of_lines is_summary is_timeout decode new_stream ls lines) in
      let quiet = ap (λ (t : Stream). t.incomplete) (sym read) ∙ finish-incomplete s h in
      let (last, same) =
        read_lines-scan_events is_summary is_timeout decode new_stream [] ls (refl, refl) quiet in
      classify-scan is_summary is_timeout (events_in decode ls) (finish s) last
        (same ∙ (ap (λ t. scan_of t last) (sym read) ∙ finish-scan_of s last)) clean h

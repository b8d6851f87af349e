-- ===== src/Tests/Submission.antt =====
-- The decisions and the headers of a submission on concrete messages.
use jmapsyncd.Base.{◌≡◌, refl, some, [], ◌∷◌, ◌++◌, Text, text, text_eq, nat_eq, starts_with}
use jmapsyncd.Base.Strings.{take, drop}
use jmapsyncd.Daemon.Submission.{
  Envelope, from_jmap_error, problem, transport, transient, permanent,
}
use jmapsyncd.Daemon.Headers.{
  strip_family2_headers, inject_family2_headers, strip_lines, split_header_body, find_subseq,
  find_line_end, folded, starts_with_folded_continuation, is_family2_header_line,
  line_starts_with_header_ci, crlf,
}

-- A status of 408 is retried as a problem, and not as a transport error.
timeout_status :
    (from_jmap_error (problem (some 408)) ≡ transient)
    × (from_jmap_error (transport (some 408)) ≡ permanent)
unfolding from_jmap_error nat_eq
timeout_status = (refl, refl)

abbrev message : Text
message = text "Subject: x" ++ (crlf ++ (crlf ++ text "body"))

strip-inject :
    strip_family2_headers (inject_family2_headers message (text "no") (text "today") (text "U1"))
    ≡ message
unfolding strip_family2_headers inject_family2_headers strip_lines split_header_body find_subseq
    find_line_end folded starts_with_folded_continuation is_family2_header_line
    line_starts_with_header_ci starts_with take drop nat_eq
strip-inject = refl

abbrev envelope : Envelope
envelope = record { from = text "a@x"; to = text " " ∷ text "b@y" ∷ [] }

-- ===== src/Engine/Health.antt =====
-- services/merkle-engine/src/main.rs: the answer of the health server to a connection. The text of the
-- request that is read, and the display of the uptime, are arguments; what follows the first line of the
-- request does not matter to the code. error.rs declares two errors that nothing returns.
use Prim.Native.String
use merkle_evidence_vault.Prelude.{String, [], if◌then◌else◌, ◌∷◌}
use merkle_evidence_vault.Text.{concat, has_prefix}
use merkle_evidence_vault.Text.Decimal.{decimal}

-- The status line, the content type and the body.
pub record Page : Type 0 where
  pub status_line : String
  pub content_type : String
  pub body : String

unfoldable pub page_for : String → String → Page
unfolding concat
page_for uptime first_line =
    if has_prefix first_line "GET /healthz"
    then record { status_line = "HTTP/1.1 200 OK\r\n"; content_type = "text/plain"; body = "ok\n" }
    else if has_prefix first_line "GET /metrics"
    then record {
      status_line = "HTTP/1.1 200 OK\r\n";
      content_type = "text/plain; version=0.0.4";
      body = concat (
          "# HELP merkle_engine_uptime_seconds Process uptime in seconds.\n# TYPE merkle_engine_uptime_seconds gauge\nmerkle_engine_uptime_seconds "
          ∷ uptime
          ∷ "\n# HELP merkle_engine_tree_size Current tree size (placeholder).\n# TYPE merkle_engine_tree_size gauge\nmerkle_engine_tree_size 0\n"
          ∷ []);
    }
    else record {
      status_line = "HTTP/1.1 404 Not Found\r\n";
      content_type = "text/plain";
      body = "not found\n";
    }

-- `format!` of the page, with the number of bytes of the body.
unfoldable pub written_page : Page → String
unfolding concat decimal
written_page p = concat (
    p.status_line
    ∷ "Content-Type: "
    ∷ p.content_type
    ∷ "\r\nContent-Length: "
    ∷ decimal (String.len p.body)
    ∷ "\r\nConnection: close\r\n\r\n"
    ∷ p.body
    ∷ [])

unfoldable pub handle_client : String → String → String
unfolding page_for written_page
handle_client uptime first_line = written_page (page_for uptime first_line)

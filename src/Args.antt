-- ===== src/Args.antt =====
-- The argument parsing of internal/command/args.go and the SET options of
-- internal/command/strings_parse.go.
pub mod Integer

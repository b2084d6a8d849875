-- ===== src/Matcher.antt =====
-- packages/matcher: which recorded playbook a task may be replayed with.
pub mod Match

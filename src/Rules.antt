-- ===== src/Rules.antt =====
-- packages/rules: the expression language of rule conditions, and what is built on it.
pub mod Syntax
pub mod Lexer
pub mod Parser
pub mod Eval
pub mod State
pub mod Evaluator
pub mod Samples
pub mod Tests
pub mod StateTests
pub mod EvaluatorTests

-- ===== src/Samples.antt =====
-- Concrete runs: each theorem with hypotheses at inputs that satisfy them. Decimals have four
-- places here.
mod Transactions
mod Groups
mod Transfers
mod Ranges
mod Uploads
mod Options
mod Splits
mod Identifiers

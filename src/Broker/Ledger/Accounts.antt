-- ===== src/Broker/Ledger/Accounts.antt =====
-- The accounts of broker/ledger.py. The source spells them as strings: `agent.available` and so
-- on, and `pool.<key>`; `is_agent` is its test `account.startswith("agent.")`.
use memeval.Prelude.{String, ◌≡◌, ◌↔◌, Bool, true, false, arith, eq_iff, Eq, str_eq}

pub data Account : Type 0 where
  agent_available agent_reserved agent_pending sink_gas source_bankroll : Account
  pool : String → Account

unfoldable pub is_agent : Account → Bool
is_agent agent_available = true
is_agent agent_reserved = true
is_agent agent_pending = true
is_agent _ = false

abbrev pub account_beq : Account → Account → Bool
account_beq agent_available agent_available = true
account_beq agent_reserved agent_reserved = true
account_beq agent_pending agent_pending = true
account_beq sink_gas sink_gas = true
account_beq source_bankroll source_bankroll = true
account_beq (pool p) (pool q) = str_eq p q
account_beq _ _ = false

pub account_beq_iff : (a b : Account) → (account_beq a b ≡ true) ↔ (a ≡ b)
account_beq_iff (pool p) (pool q) = ground (arith, eq_iff p q)
account_beq_iff agent_available agent_available = ground arith
account_beq_iff agent_reserved agent_reserved = ground arith
account_beq_iff agent_pending agent_pending = ground arith
account_beq_iff sink_gas sink_gas = ground arith
account_beq_iff source_bankroll source_bankroll = ground arith
account_beq_iff _ _ = ground arith

instance abbrev pub account_eq : Eq Account
account_eq = record { beq = account_beq; beq_iff = account_beq_iff }

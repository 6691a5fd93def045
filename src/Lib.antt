-- ===== src/Lib.antt =====
-- A verification library of the Cadencia platform: enterprises post requests, agents negotiate a
-- trade, the agreed price is held in an escrow on the Algorand chain, and every step is written to a
-- hash-chained audit log. Paths are from cadencia-a2a-phases/ at the root of the repository, without
-- its inner src/.
--
-- Parts and how they interact:
--   Enterprises and their users are registered, verified and configured in identity. A buyer uploads an
--   RFQ to the marketplace, which parses it, finds sellers and has the buyer confirm one match.
--   A match opens a negotiation session. NegotiationService runs turns on it: the neutral engine asks
--   the language model for a price, the guardrails may replace it, and the offer is added to the
--   session, which a terminal turn closes. An agreed session is deployed as an escrow by
--   SettlementService, which calls the contract on chain first and then the escrow aggregate, and
--   stores the aggregate. The release of an escrow carries the Merkle root of its audit entries.
--   The events of an escrow are published to handlers, which append to its audit log and generate
--   the GST and FEMA records of a release. The treasury keeps the balances of an enterprise. Each request
--   names its user by a token, and the administration acts on the tables of every enterprise.
--
-- Files and what they model:
--   Base: numbers, lists, texts as lists of code points, signed integers, the rounding of decimals, and
--     method calls as functions from a state to a result and a state, which keep what was written
--     before a raise.
--   Settlement/Values, Escrow: settlement/domain/value_objects.py and escrow.py, method by method.
--   Settlement/Contract: contracts/escrow_contract.py. `execute` is one transaction; a failed assert
--     is `none`.
--   Settlement/Rows, Store: settlement/infrastructure/repositories.py (`_escrow_to_model`,
--     `_model_to_escrow`, the lookups and `merge`).
--   Settlement/Service: the six commands of settlement/application/services.py over a world of rows,
--     settlements, events and a chain. Settlement/Mirror drives the aggregate and the contract in
--     the order of the service.
--   Settlement/Algorand: settlement/infrastructure/algorand_gateway.py and anchor_service.py, which
--     implement the ports of the service; Wallet is `submit_signed_fund` of settlement/api/router.py.
--   Negotiation/Offers, History, Session, Policies, Guardrails, Valuation: negotiation/domain/offer.py,
--     value_objects.py, session.py, policies.py, guardrails.py and valuation.py.
--   Negotiation/Strategy: negotiation/domain/strategy.py, a recommendation for a turn.
--   Negotiation/Engine, Concessions: `process_turn` of negotiation/infrastructure/neutral_engine.py.
--   Negotiation/Tables: negotiation/infrastructure/repositories.py (sessions and offers).
--   Negotiation/Service: `create_session`, `run_agent_turn`, `apply_human_override` and
--     `terminate_session` of negotiation/application/services.py on the unit of work of
--     shared/infrastructure/db/uow.py.
--   Treasury: treasury/domain/liquidity_pool.py. Treasury/Flows runs its methods, Positions is
--     fx_position.py, Service the commands of treasury/application/services.py over the stored pools
--     and positions, Covered a history of them, and Forecast `get_liquidity_forecast`. Rates is
--     `get_rate` of treasury/infrastructure/frankfurter_fx_adapter.py, OnRamp the conversions of
--     settlement/infrastructure/onramp_adapter.py.
--   Marketplace: marketplace/domain/rfq.py, match.py and value_objects.py. Rows and Restore are
--     marketplace/infrastructure/repositories.py, and Service, Matching, Once and Confirmation
--     `upload_rfq`, `_parse_and_match` and `confirm_rfq` of marketplace/application/services.py.
--   Identity: identity/domain/enterprise.py and user.py, Identity/Values its value_objects.py, and
--     Service, Registration and Access identity/application/services.py with its repositories.
--     Wallets is identity/infrastructure/wallet_verifier.py with the challenge and the links of
--     wallet/api/router.py and identity/api/router.py, Requests identity/infrastructure/jwt_service.py
--     and identity/api/dependencies.py.
--   Admin: admin/services/admin_service.py, and in Requests its routes of admin/api/router.py, each on
--     the tables of its own database session, which nobody commits.
--   Compliance/Audit: compliance/domain/audit_log.py, with `append_audit_event` and
--     `verify_audit_chain` of compliance/application/services.py and their queries.
--   Compliance/Values, Records: compliance/domain/value_objects.py, gst_record.py and fema_record.py,
--     with `generate_compliance_records` of the service and the queries on the records.
--   Shared/Merkle, Breaker, Limiter, Publisher: merkle_service.py, circuit_breaker.py, rate_limiter.py and
--     events/publisher.py of shared/infrastructure/.
--   Shared/Payments, Sanitizer: x402_handler.py and llm_sanitizer.py of shared/api/. Sanitizer/Driver is
--     `generate_offer` of negotiation/infrastructure/llm_agent_driver.py.
--   Events: the registration of shared/infrastructure/events/handlers.py as main.py calls it.
--     Events/Compliance is its handlers of escrow events, Events/Agreed `handle_session_agreed_deploy`.
--
-- State and failures: an aggregate is a record and a method an `Action` on it; the exceptions of
-- shared/domain/exceptions.py are the constructors of `DomainError`. Readings of clocks and fresh
-- identifiers are arguments. Amounts and prices are whole numbers of a smallest unit, which each file
-- names, confidences thousandths, and ratios are compared by cross multiplication. Decimal's limit of 28
-- digits is left out.
--
-- Bounds and fuel: rounds are at most 20, stalls and schema failures close at 3. The layers of a Merkle
-- tree are built on fuel: the number of entries is enough, since each layer halves it, and the
-- round trip of the proofs includes that a root and a proof are returned. All else is structural.
--
-- Parameters: the gateway to the chain, the anchor and the audit entries of a release, the address
-- of an application (Algorand SDK), SHA-256, the payload of an event as JSON, the strategy and the
-- language model, the provider of rates and the query on past settlements, the RFQ parser and the
-- matchmaker, the KYC provider, bcrypt, and the reader of enterprises. The node and the generated client
-- of the contract, HMAC and the signing of tokens, the address and signature checks of wallets, the
-- JSON parser, the exponential of the deadline curve, and the rate service.
--
-- Not modelled: opponent model and agent profiles, capability profiles, the dashboard of the treasury, the
-- mapping of identity's rows, exports, the MoonPay client, the assembly of unsigned transactions, the HTTP
-- routers but for the routes named above, the other clients of external services, and metrics, logs and server-sent events, which decide nothing.
pub mod Base
pub mod Shared
pub mod Compliance
pub mod Settlement
pub mod Negotiation
pub mod Treasury
pub mod Marketplace
pub mod Identity
pub mod Events
pub mod Admin

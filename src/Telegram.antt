-- ===== src/Telegram.antt =====
-- telegram_approval.py: the approval button's payload, and the poller that records approvals.
pub mod Payload
pub mod Poller
pub mod Preview
pub mod Notifier

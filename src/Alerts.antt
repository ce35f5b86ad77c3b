-- ===== src/Alerts.antt =====
-- `AlertService` of backend/app/services/alerts/alert_service.py and the rules of
-- backend/app/services/alerts/rules.py. Texts are numbers, times are in microseconds, amounts in hundredths;
-- the messages of alerts, what is stored of them and the listings are not modelled.
pub mod Rules
pub mod Service
pub mod Laws
pub mod Silence

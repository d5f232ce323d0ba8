-- ===== src/Tests.antt =====
-- Runs of the model on small inputs, and each theorem at an input that meets its hypotheses.
mod Data
mod HistoryTests
mod FavoriteTests
mod RecentTests
mod ProjectTests
mod TransferTests
mod TelemetryTests
mod FileIndexTests
mod SessionTests
mod WizardTests
mod PanelTests
mod JoinCodeTests
mod BrowserTests
mod JoinPageTests
mod DialogTests
mod ViewTests
mod SettingsTests

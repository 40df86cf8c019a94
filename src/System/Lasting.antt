-- ===== src/System/Lasting.antt =====
-- What nothing in the program takes back, an operator's controls included.
use durable_workflows.Status.Workflow
